-- ===== src/Device/SystemConfig/Registers/Ports.antt =====
-- A port's registers, written and read back (src/device/system_config.rs).
use idf.Base.{
  ℕ, zero, suc, ◌+◌, ◌-◌, ◌*◌, ◌/◌, ◌%◌, ◌<◌, ◌≤◌, ◌≡◌, ◌⊎◌, inl, inr, refl, subst, ap, ◌∙◌, List,
  [], ◌∷◌, true, false, ◌&&◌, Option, none, some, ◌==◌, ◌!=◌, ltb, leb, if◌then◌else◌, get_or,
  length, All, arith, Bool-cases, Option-cases, if_split, if_elim, IfSome, all_below,
  all_below_sound, ==→eq,
}
use idf.Device.SystemConfig.{Rs485Config}
use idf.Device.SystemConfig.Codec.Valid.{IsPort, Bounded}
use idf.Device.SystemConfig.Registers.{
  WriteResult, persist, invalid_value, within, baud_idx, baud_table, read_port, write_line,
  write_port, read_ports, write_ports, hold_rs485_stride,
}

-- What a register of a port shows of a written value: in the first word, 0 and 4 both stand for 9600
-- baud, and the low byte is 1 or 0.
pub shown_line : ℕ → ℕ
shown_line value =
    (if value / 4096 == 0 then 4 else value / 4096) * 4096
    + value / 256 % 16 * 256
    + (if value % 256 == 1 then 1 else 0)

abbrev pub shown_word : ℕ → ℕ → ℕ
shown_word off value = if off == 0 then shown_line value else value

baud_table_ok :
    all_below 16 (λ i. baud_idx (get_or baud_table i 9600) == (if i == 0 then 4 else i)) ≡ true
unfolding all_below baud_idx
baud_table_ok = refl

baud_again : (i : ℕ) → i < 16 → baud_idx (get_or baud_table i 9600) ≡ (if i == 0 then 4 else i)
baud_again i h = ==→eq _ _ (all_below_sound 16 _ i baud_table_ok h)

baud_bounds :
    all_below 16
      (λ i. ltb 0 (get_or baud_table i 9600) && ltb (get_or baud_table i 9600) 4294967296)
    ≡ true
unfolding all_below
baud_bounds = refl

baud_range : (i : ℕ) → i < 16 → Bounded 4294967296 (get_or baud_table i 9600)
baud_range i h =
    let e = all_below_sound 16 _ i baud_bounds h in (ground (arith, e), ground (arith, e))

data_again :
    (flag : ℕ)
    → flag < 2
    → let bits : ℕ = if flag != 0 then 7 else 8 in
      let back : ℕ = if bits == 7 then 256 else 0 in back ≡ flag * 256
data_again flag h = ground (arith, h)

mode_again :
    (low : ℕ)
    → let mode : ℕ = if low == 1 then 0 else 1 in
      let one : ℕ = if mode == 0 then 1 else 0 in one ≡ (if low == 1 then 1 else 0)
mode_again low = ground arith

read_port-write_line :
    (r : Rs485Config) (value : ℕ)
    → value < 65536
    → read_port (write_line r value) 0 ≡ shown_line value
unfolding read_port write_line shown_line
read_port-write_line r value h =
    let nibble : value / 4096 % 16 ≡ value / 4096 = omega (arith, h) in
    let baud : baud_idx (get_or baud_table (value / 4096 % 16) 9600)
        ≡ (if value / 4096 == 0 then 4 else value / 4096) =
      baud_again (value / 4096 % 16) (omega arith) ∙ ap (λ i. if i == 0 then 4 else i) nibble in
    rw (baud) (omega (arith, data_again (value / 256 % 2) (omega arith), mode_again (value % 256)))

line-IsPort : (r : Rs485Config) (value : ℕ) → IsPort r → IsPort (write_line r value)
unfolding write_line
line-IsPort r value v = record {
  baudrate_ok = baud_range (value / 4096 % 16) (omega arith);
  data_ok = ground arith;
  stop_ok = (omega arith, omega arith);
  parity_ok = omega arith;
  slave_ok = v.slave_ok;
  mode_ok = ground arith;
  retry_ok = v.retry_ok;
  timeout_ok = v.timeout_ok;
  interval_ok = v.interval_ok;
}

below_five : (P : ℕ → Type 0) → P 0 → P 1 → P 2 → P 3 → P 4 → (off : ℕ) → off < 5 → P off
below_five P a b c d e zero h = a
below_five P a b c d e (suc zero) h = b
below_five P a b c d e (suc (suc zero)) h = c
below_five P a b c d e (suc (suc (suc zero))) h = d
below_five P a b c d e (suc (suc (suc (suc zero)))) h = e
below_five P a b c d e (suc (suc (suc (suc (suc off))))) h = absurd (omega arith)

pub write_port-read_port :
    (r : Rs485Config) (off value : ℕ)
    → off < 5
    → value < 65536
    → IfSome (λ r'. read_port r' off ≡ shown_word off value) (write_port r off value)
unfolding write_port read_port
write_port-read_port r off value h k =
    below_five
      (λ off. IfSome (λ r'. read_port r' off ≡ shown_word off value) (write_port r off value))
      (if_elim (IfSome (λ r'. read_port r' 0 ≡ shown_line value)) (ltb 2 (value / 1024 % 4)) _ _ tt
        (read_port-write_line r value k))
      (if_split (IfSome (λ r'. r'.slave_addr ≡ value)) (leb 1 value && leb value 247) _ _
        (λ e. ground (arith, e)) (λ _. tt))
      (if_elim (IfSome (λ r'. r'.retry_count ≡ value)) (ltb 5 value) _ _ tt refl)
      (if_elim (IfSome (λ r'. r'.timeout_ms ≡ value)) (leb 20 value && leb value 5000) _ _ refl tt)
      (if_elim (IfSome (λ r'. r'.interval_ms ≡ value)) (leb 20 value && leb value 5000) _ _ refl tt)
      off h

pub write_port-IsPort :
    (r : Rs485Config) (off value : ℕ)
    → off < 5
    → value < 65536
    → IsPort r
    → IfSome IsPort (write_port r off value)
unfolding write_port write_line
write_port-IsPort r off value h k v =
    below_five (λ off. IfSome IsPort (write_port r off value))
      (if_elim (IfSome IsPort) (ltb 2 (value / 1024 % 4)) _ _ tt (line-IsPort r value v))
      (if_elim (IfSome IsPort) (leb 1 value && leb value 247) _ _
        (record {
          baudrate_ok = v.baudrate_ok;
          data_ok = v.data_ok;
          stop_ok = v.stop_ok;
          parity_ok = v.parity_ok;
          slave_ok = omega arith;
          mode_ok = v.mode_ok;
          retry_ok = v.retry_ok;
          timeout_ok = v.timeout_ok;
          interval_ok = v.interval_ok;
        })
        tt)
      (if_elim (IfSome IsPort) (ltb 5 value) _ _ tt (record {
        baudrate_ok = v.baudrate_ok;
        data_ok = v.data_ok;
        stop_ok = v.stop_ok;
        parity_ok = v.parity_ok;
        slave_ok = v.slave_ok;
        mode_ok = v.mode_ok;
        retry_ok = k;
        timeout_ok = v.timeout_ok;
        interval_ok = v.interval_ok;
      }))
      (if_elim (IfSome IsPort) (leb 20 value && leb value 5000) _ _
        (record {
          baudrate_ok = v.baudrate_ok;
          data_ok = v.data_ok;
          stop_ok = v.stop_ok;
          parity_ok = v.parity_ok;
          slave_ok = v.slave_ok;
          mode_ok = v.mode_ok;
          retry_ok = v.retry_ok;
          timeout_ok = k;
          interval_ok = v.interval_ok;
        })
        tt)
      (if_elim (IfSome IsPort) (leb 20 value && leb value 5000) _ _
        (record {
          baudrate_ok = v.baudrate_ok;
          data_ok = v.data_ok;
          stop_ok = v.stop_ok;
          parity_ok = v.parity_ok;
          slave_ok = v.slave_ok;
          mode_ok = v.mode_ok;
          retry_ok = v.retry_ok;
          timeout_ok = v.timeout_ok;
          interval_ok = k;
        })
        tt)
      off h

-- What a write to the ports from `base` on leaves: the value read back, or all as it was.
pub record IsWritten (ports : List Rs485Config) (base addr value : ℕ)
    (w : WriteResult × List Rs485Config) : Type 0 where
  pub above : base ≤ addr
  pub below : addr < base + 5 * length ports
  pub same_length : length w.1 ≡ length ports
  pub still_ok : All IsPort ports → All IsPort w.1
  pub outcome :
      ((w.0 ≡ invalid_value) × (w.1 ≡ ports))
      ⊎ ((w.0 ≡ persist) × (read_ports w.1 base addr ≡ some (shown_word ((addr - base) % 5) value)))

offset_in : (base addr : ℕ) → within base 5 addr ≡ true → (base ≤ addr) × (addr - base < 5)
offset_in base addr e = (ground (arith, e), ground (arith, e))

IfSome-at : {A : Type 0} (P : A → Type 0) (o : Option A) (a : A) → o ≡ some a → IfSome P o → P a
IfSome-at P o a e h = subst (IfSome P) e h

here-IsWritten :
    (r : Rs485Config) (ports : List Rs485Config) (base addr value : ℕ)
    → value < 65536
    → within base 5 addr ≡ true
    → IfSome (IsWritten (r ∷ ports) base addr value) (write_ports (r ∷ ports) base addr value)
unfolding write_ports read_ports
here-IsWritten r ports base addr value k e =
    let (low, small) = offset_in base addr e in
    elim (Option-cases (write_port r (addr - base) value)) [
      | inl refused ↦
          rw (write_ports, e, refused)
            (record {
              above = low;
              below = omega (arith, small, low);
              same_length = refl;
              still_ok = λ h. h;
              outcome = inl (refl, refl);
            })
      | inr (r', kept) ↦
          let shown =
            IfSome-at (λ r'. read_port r' (addr - base) ≡ shown_word (addr - base) value) _ r' kept
              (write_port-read_port r (addr - base) value small k) in
          rw (write_ports, e, kept)
            (record {
              above = low;
              below = omega (arith, small, low);
              same_length = refl;
              still_ok = λ h. (
                IfSome-at IsPort _ r' kept (write_port-IsPort r (addr - base) value small k h.0),
                h.1,
              );
              outcome = inr (
                refl,
                rw (read_ports, e)
                    (ap some (
                      shown
                      ∙ ap (λ off. shown_word off value) {x = addr - base} {y = (addr - base) % 5}
                          (omega (arith, small)))),
              );
            })
    ]

pub write_ports-IsWritten :
    (ports : List Rs485Config) (base addr value : ℕ)
    → value < 65536
    → IfSome (IsWritten ports base addr value) (write_ports ports base addr value)
unfolding write_ports read_ports
write_ports-IsWritten [] base addr value k = tt
write_ports-IsWritten (r ∷ ports) base addr value k = elim (Bool-cases (within base 5 addr)) [
  | inl e ↦ here-IsWritten r ports base addr value k e
  | inr e ↦ elim (Option-cases (write_ports ports (base + hold_rs485_stride) addr value)) [
    | inl none_there ↦ rw (write_ports, e, none_there) tt
    | inr ((result, more), there) ↦
        let rest =
          IfSome-at (IsWritten ports (base + 5) addr value) _ (result, more) there
            (write_ports-IsWritten ports (base + 5) addr value k) in
        rw (write_ports, e, there)
          (record {
            above = omega (arith, rest.above);
            below = omega (arith, rest.below);
            same_length = ap suc rest.same_length;
            still_ok = λ h. (h.0, rest.still_ok h.1);
            outcome = elim rest.outcome [
              | inl (f, g) ↦ inl (f, ap (λ t. r ∷ t) g)
              | inr (f, g) ↦ inr (
                f,
                rw (read_ports, e)
                    (g
                      ∙ ap (λ off. some (shown_word off value)) {x = (addr - (base + 5)) % 5}
                          {y = (addr - base) % 5} (omega (arith, rest.above))),
              )
            ];
          })
  ]
]

pub write_ports_at :
    (ports : List Rs485Config) (base addr value : ℕ) (w : WriteResult × List Rs485Config)
    → value < 65536
    → write_ports ports base addr value ≡ some w
    → IsWritten ports base addr value w
write_ports_at ports base addr value w k e =
    IfSome-at (IsWritten ports base addr value) _ w e
      (write_ports-IsWritten ports base addr value k)

pub read_ports-beyond :
    (ports : List Rs485Config) (base addr : ℕ)
    → base + 5 * length ports ≤ addr
    → read_ports ports base addr ≡ none
unfolding read_ports
read_ports-beyond [] base addr h = refl
read_ports-beyond (r ∷ ports) base addr h =
    let outside : within base 5 addr ≡ false = ground (arith, h) in
    rw (outside) (read_ports-beyond ports (base + 5) addr (omega (arith, h)))
