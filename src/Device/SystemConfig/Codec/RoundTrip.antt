-- ===== src/Device/SystemConfig/Codec/RoundTrip.antt =====
-- What is saved is what is loaded (src/device/system_config.rs).
use idf.Base.{
  ℕ, zero, suc, ◌+◌, ◌*◌, ◌/◌, ◌<◌, ◌≡◌, refl, sym, subst, ap, ◌∙◌, List, [], ◌∷◌, Bool, true,
  false, All, length, get_or, slice, take, drop, replicate, u8, arith, ◌!=◌,
}
use idf.Device.SystemConfig.{SystemConfig, Rs485Config, defaults, tcp_ports_default}
use idf.Device.SystemConfig.Codec.{
  encode, decode, decode_port, decode_tcp, port_entry, port_entries, tcp_entries, fields_of, le16,
  read_le16, read_le32, or_default, bool_byte, cfg_blob_size,
}
use idf.Device.SystemConfig.Codec.Fields.{Ascending, Reads, length-write_fields, write_fields-Reads}
use idf.Device.SystemConfig.Codec.Valid.{IsConfig, IsPort, Bounded, defaults-IsConfig}

get_or-take : (n : ℕ) (xs : List ℕ) (j : ℕ) → j < n → get_or (take n xs) j 0 ≡ get_or xs j 0
get_or-take zero xs j h = absurd (omega arith)
get_or-take (suc n) [] j h = refl
get_or-take (suc n) (x ∷ xs) zero h = refl
get_or-take (suc n) (x ∷ xs) (suc j) h = get_or-take n xs j (omega arith)

get_or-drop : (off : ℕ) (b : List ℕ) (i : ℕ) → get_or (drop off b) i 0 ≡ get_or b (off + i) 0
get_or-drop zero b i = ap (λ k. get_or b k 0) {x = i} {y = 0 + i} (omega arith)
get_or-drop (suc off) [] i = refl
get_or-drop (suc off) (x ∷ b) i =
    get_or-drop off b i
    ∙ ap (λ k. get_or (x ∷ b) k 0) {x = suc (off + i)} {y = suc off + i} (omega arith)

-- A byte of a field that reads as it was written.
byte_of :
    (off n i : ℕ) (b part : List ℕ)
    → slice off n b ≡ part
    → i < n
    → get_or b (off + i) 0 ≡ get_or part i 0
byte_of off n i b part e h =
    sym (get_or-drop off b i) ∙ sym (get_or-take n (drop off b) i h) ∙ ap (λ t. get_or t i 0) e

array_of :
    (b : List ℕ) (off n : ℕ) (xs : List ℕ) → Reads b (off, xs) → length xs ≡ n → slice off n b ≡ xs
array_of b off n xs h e = subst (λ m. slice off m b ≡ xs) e h

le16_of : (b : List ℕ) (off v : ℕ) → Reads b (off, le16 v) → v < 65536 → read_le16 b off ≡ v
le16_of b off v h k = omega (
  arith,
  k,
  ap (λ i. get_or b i 0) {x = off + 0} {y = off} (omega arith),
  byte_of off 2 0 b (le16 v) h (omega arith),
  byte_of off 2 1 b (le16 v) h (omega arith),
)

given : (d x v : ℕ) → x ≡ v → 0 < v → or_default d x ≡ v
given d x v e h = ground (arith, e, h)

word_from :
    (b : List ℕ) (off i v : ℕ)
    → get_or b (off + i) 0 ≡ u8 v
    → get_or b (off + (i + 1)) 0 ≡ u8 (v / 256)
    → v < 65536
    → read_le16 b (off + i) ≡ v
word_from b off i v e f h =
    omega
      (arith, e, f, h, ap (λ j. get_or b j 0) {x = off + i + 1} {y = off + (i + 1)} (omega arith))

decode_port-entry :
    (b : List ℕ) (off : ℕ) (r : Rs485Config)
    → Reads b (off, port_entry r)
    → IsPort r
    → decode_port b off ≡ r
unfolding port_entry decode_port
decode_port-entry b off r h v =
    let byte : (i : ℕ) → i < 15 → get_or b (off + i) 0 ≡ get_or (port_entry r) i 0 =
      λ i k. byte_of off 15 i b (port_entry r) h k in
    let first : get_or b (off + 0) 0 ≡ get_or b off 0 =
      ap (λ i. get_or b i 0) {x = off + 0} {y = off} (omega arith) in
    let baud : read_le32 b off ≡ r.baudrate = omega (
      arith,
      first,
      byte 0 (omega arith),
      byte 1 (omega arith),
      byte 2 (omega arith),
      byte 3 (omega arith),
      v.baudrate_ok,
    ) in
    let e0 : or_default 9600 (read_le32 b off) ≡ r.baudrate = given 9600 _ _ baud v.baudrate_ok.0 in
    let e1 : or_default 8 (get_or b (off + 4) 0) ≡ r.data_bits =
      given 8 _ _ (byte 4 (omega arith)) v.data_ok.0 in
    let e2 : or_default 1 (get_or b (off + 5) 0) ≡ r.stop_bits =
      given 1 _ _ (byte 5 (omega arith)) v.stop_ok.0 in
    let e3 : get_or b (off + 6) 0 ≡ r.parity = byte 6 (omega arith) in
    let e4 : get_or b (off + 7) 0 ≡ r.slave_addr = byte 7 (omega arith) in
    let e5 : get_or b (off + 8) 0 ≡ r.mode = byte 8 (omega arith) in
    let e6 : read_le16 b (off + 9) ≡ r.retry_count =
      word_from b off 9 r.retry_count (byte 9 (omega arith)) (byte 10 (omega arith)) v.retry_ok in
    let e7 : read_le16 b (off + 11) ≡ r.timeout_ms =
      word_from b off 11 r.timeout_ms (byte 11 (omega arith)) (byte 12 (omega arith))
        v.timeout_ok in
    let e8 : read_le16 b (off + 13) ≡ r.interval_ms =
      word_from b off 13 r.interval_ms (byte 13 (omega arith)) (byte 14 (omega arith))
        v.interval_ok in
    cc (e0, e1, e2, e3, e4, e5, e6, e7, e8)

decode_tcp-entry :
    (b : List ℕ) (i port : ℕ)
    → Reads b (137 + i * 2, le16 port)
    → Bounded 65536 port
    → decode_tcp b i ≡ port
unfolding decode_tcp
decode_tcp-entry b i port h v =
    given (get_or tcp_ports_default i 0) _ port (le16_of b (137 + i * 2) port h v.1) v.0

flag_of : (flag : Bool) → (bool_byte flag != 0) ≡ flag
flag_of true = refl
flag_of false = refl

three_of :
    (ports : List Rs485Config) → length ports ≡ 3 → (p q r : Rs485Config) × (ports ≡ p ∷ q ∷ r ∷ [])
three_of [] e = absurd (omega (arith, e))
three_of (p ∷ []) e = absurd (omega (arith, e))
three_of (p ∷ q ∷ []) e = absurd (omega (arith, e))
three_of (p ∷ q ∷ r ∷ []) e = (p, q, r, refl)
three_of (p ∷ q ∷ r ∷ s ∷ ports) e = absurd (omega (arith, e))

four_of : (ports : List ℕ) → length ports ≡ 4 → (p q r s : ℕ) × (ports ≡ p ∷ q ∷ r ∷ s ∷ [])
four_of [] e = absurd (omega (arith, e))
four_of (p ∷ []) e = absurd (omega (arith, e))
four_of (p ∷ q ∷ []) e = absurd (omega (arith, e))
four_of (p ∷ q ∷ r ∷ []) e = absurd (omega (arith, e))
four_of (p ∷ q ∷ r ∷ s ∷ []) e = (p, q, r, s, refl)
four_of (p ∷ q ∷ r ∷ s ∷ t ∷ ports) e = absurd (omega (arith, e))

-- The offsets leave room for each field.
fields_of-Ascending :
    (c : SystemConfig) (p q r : Rs485Config) (t u v w : ℕ)
    → c.rs485 ≡ p ∷ q ∷ r ∷ []
    → c.tcp_ports ≡ t ∷ u ∷ v ∷ w ∷ []
    → IsConfig c
    → Ascending 152 0 (fields_of c)
unfolding fields_of port_entries tcp_entries port_entry
fields_of-Ascending c p q r t u v w e f ok =
    rw (fields_of, e, f)
      (ground (
        arith, ok.sn_ok.0, ok.name_ok.0, ok.eth_ok.0, ok.ip_ok.0, ok.mask_ok.0, ok.gateway_ok.0,
        ok.dns_ok.0, ok.ble_mac_ok.0, ok.ble_name_ok.0,
      ))

-- The pieces of an image from which all fields read back.
pieces :
    (c : SystemConfig) (p q r : Rs485Config) (t u v w : ℕ) (b : List ℕ)
    → c.rs485 ≡ p ∷ q ∷ r ∷ []
    → c.tcp_ports ≡ t ∷ u ∷ v ∷ w ∷ []
    → length b ≡ 152
    → IsConfig c
    → All (Reads b) (fields_of c)
    → decode b ≡ c
unfolding decode fields_of port_entries tcp_entries
pieces c p q r t u v w b e f size ok h =
    let full : (length b != cfg_blob_size) ≡ false = ground (arith, size) in
    let split =
      subst
        (λ ports.
          All (Reads b) (fields_of (record c { rs485 = ports; tcp_ports = t ∷ u ∷ v ∷ w ∷ [] })))
        e (subst (λ ports. All (Reads b) (fields_of (record c { tcp_ports = ports }))) f h) in
    let (at_sn, rest0) = split in
    let (at_name, rest1) = rest0 in
    let (at_hw, rest2) = rest1 in
    let (at_fw, rest3) = rest2 in
    let (at_ver, rest4) = rest3 in
    let (at_eth, rest5) = rest4 in
    let (at_dhcp, rest6) = rest5 in
    let (at_ip, rest7) = rest6 in
    let (at_mask, rest8) = rest7 in
    let (at_gw, rest9) = rest8 in
    let (at_dns, rest10) = rest9 in
    let (at_bmac, rest11) = rest10 in
    let (at_bname, rest12) = rest11 in
    let (at_p0, rest13) = rest12 in
    let (at_p1, rest14) = rest13 in
    let (at_p2, rest15) = rest14 in
    let (at_t0, rest16) = rest15 in
    let (at_t1, rest17) = rest16 in
    let (at_t2, rest18) = rest17 in
    let (at_t3, rest19) = rest18 in
    let (ok_p, (ok_q, (ok_r, _))) = subst (All IsPort) e ok.ports_ok in
    let (ok_t, (ok_u, (ok_v, (ok_w, _)))) = subst (All (Bounded 65536)) f ok.tcp_ok in
    let sn_is : slice 0 32 b ≡ c.sn = array_of b 0 32 c.sn at_sn ok.sn_ok.0 in
    let name_is : slice 32 16 b ≡ c.name = array_of b 32 16 c.name at_name ok.name_ok.0 in
    let hw_is : read_le16 b 48 ≡ c.hw_version = le16_of b 48 c.hw_version at_hw ok.hw_ok in
    let fw_is : read_le16 b 50 ≡ c.fw_version = le16_of b 50 c.fw_version at_fw ok.fw_ok in
    let ver_is : read_le16 b 52 ≡ c.cfg_version = le16_of b 52 c.cfg_version at_ver ok.version_ok in
    let eth_is : slice 54 6 b ≡ c.eth_mac = array_of b 54 6 c.eth_mac at_eth ok.eth_ok.0 in
    let dhcp_is : (get_or b 60 0 != 0) ≡ c.dhcp =
      ap (λ x. x != 0) (byte_of 60 1 0 b (bool_byte c.dhcp ∷ []) at_dhcp (omega arith))
      ∙ flag_of c.dhcp in
    let ip_is : slice 61 4 b ≡ c.ip = array_of b 61 4 c.ip at_ip ok.ip_ok.0 in
    let mask_is : slice 65 4 b ≡ c.mask = array_of b 65 4 c.mask at_mask ok.mask_ok.0 in
    let gw_is : slice 69 4 b ≡ c.gateway = array_of b 69 4 c.gateway at_gw ok.gateway_ok.0 in
    let dns_is : slice 73 4 b ≡ c.dns = array_of b 73 4 c.dns at_dns ok.dns_ok.0 in
    let bmac_is : slice 77 6 b ≡ c.ble_mac = array_of b 77 6 c.ble_mac at_bmac ok.ble_mac_ok.0 in
    let bname_is : slice 83 8 b ≡ c.ble_name =
      array_of b 83 8 c.ble_name at_bname ok.ble_name_ok.0 in
    let p_is : decode_port b 92 ≡ p = decode_port-entry b 92 p at_p0 ok_p in
    let q_is : decode_port b 107 ≡ q = decode_port-entry b 107 q at_p1 ok_q in
    let r_is : decode_port b 122 ≡ r = decode_port-entry b 122 r at_p2 ok_r in
    let t_is : decode_tcp b 0 ≡ t = decode_tcp-entry b 0 t at_t0 ok_t in
    let u_is : decode_tcp b 1 ≡ u = decode_tcp-entry b 1 u at_t1 ok_u in
    let v_is : decode_tcp b 2 ≡ v = decode_tcp-entry b 2 v at_t2 ok_v in
    let w_is : decode_tcp b 3 ≡ w = decode_tcp-entry b 3 w at_t3 ok_w in
    let date_is : defaults.fw_date ≡ c.fw_date = defaults-IsConfig.date_ok ∙ sym ok.date_ok in
    rw (decode, full) cc

-- A well-formed configuration is decoded from its own image.
pub decode-encode : (c : SystemConfig) → IsConfig c → decode (encode c) ≡ c
unfolding encode
decode-encode c ok =
    let (p, q, r, e) = three_of c.rs485 ok.three_ports in
    let (t, u, v, w, f) = four_of c.tcp_ports ok.four_tcp in
    let rising = fields_of-Ascending c p q r t u v w e f ok in
    pieces c p q r t u v w (encode c) e f
      (length-write_fields 0 (fields_of c) (replicate 152 0) rising) ok
      (write_fields-Reads 0 (fields_of c) (replicate 152 0) rising)
