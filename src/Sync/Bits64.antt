-- ===== src/Sync/Bits64.antt =====
-- `AtomicBits64` of src/sync.rs as a system of threads: each load, store and exchange of an atomic is
-- one step, and all interleavings are possible (the source orders them all by SeqCst). A thread runs
-- one call at a time. The fields `owner`, `done` and `committed` and the last lists of `writes`,
-- `changes` and the second number of `reads` are history: no step depends on them.
pub mod Invariant
pub mod Serial
pub mod Channels
use idf.Base.{
  ℕ, ◌+◌, ◌-◌, ◌*◌, ◌/◌, ◌%◌, ◌^◌, ◌<◌, ◌≡◌, Bool, true, false, Option, none, some, List, [], ◌∷◌,
  ◌++◌, ◌==◌, ◌!=◌, leb, if◌then◌else◌, get_or, set, length, bit_and, bit_or, bit_xor, u16,
}

-- What a writer does to one word: a store, or a load and a store of a changed value.
pub data Edit : Type 0 where
  put : ℕ → ℕ → Edit
  change : ℕ → (ℕ → ℕ) → Edit

-- The stores of `store_bits`.
abbrev pub store_bits : ℕ → List Edit
store_bits value =
    put 0 (u16 value)
    ∷ put 1 (u16 (value / 65536))
    ∷ put 2 (u16 (value / 4294967296))
    ∷ put 3 (u16 (value / 281474976710656))
    ∷ []

-- `1u16 << (ch & 0x0F)`
abbrev pub mask_of : ℕ → ℕ
mask_of ch = 2 ^ (ch % 16)

-- `!mask` on 16 bits.
abbrev pub complement : ℕ → ℕ
complement mask = bit_xor 65535 mask

-- The new value of the word that holds a channel.
abbrev pub with_bit : ℕ → Bool → ℕ → ℕ
with_bit ch value cur =
    if value then bit_or cur (mask_of ch) else bit_and cur (complement (mask_of ch))

-- `set_bit`: out of range it answers false and writes nothing.
unfoldable pub set_bit : ℕ → Bool → Bool × List Edit
set_bit ch value =
    if leb 64 ch then (false, []) else (true, change (ch / 16) (with_bit ch value) ∷ [])

-- `get_bit`, at the words of the moment of its one load.
unfoldable pub get_bit : ℕ → List ℕ → Bool
get_bit ch words = if leb 64 ch then false else bit_and (get_or words (ch / 16) 0) (mask_of ch) != 0

-- The 16 bits of `mask` or `value` that concern word `i`.
abbrev part : ℕ → ℕ → ℕ
part value i = value / 2 ^ (i * 16) % 65536

abbrev replaced : ℕ → ℕ → ℕ → ℕ
replaced m v cur = bit_or (bit_and cur (complement m)) (bit_and v m)

-- One turn of the loop of `mask_replace`.
unfoldable pub mask_edit : ℕ → ℕ → ℕ → List Edit
mask_edit mask value i =
    if part mask i == 0 then [] else change i (replaced (part mask i) (part value i)) ∷ []

unfoldable pub mask_replace : ℕ → ℕ → List Edit
unfolding mask_edit
mask_replace mask value =
    mask_edit mask value 0
    ++ (mask_edit mask value 1 ++ (mask_edit mask value 2 ++ mask_edit mask value 3))

-- Where a thread stands: outside; in `begin_write` with the number it loaded; in the critical section
-- with the number it claimed, the edits left and all of its edits; there, about to store a value at
-- an index; in an attempt of `try_load_bits` with the number it loaded, the number of writes done by
-- then, and the words loaded so far.
pub data Pc : Type 0 where
  idle : Pc
  begins : List Edit → ℕ → Pc
  writes : ℕ → List Edit → List Edit → Pc
  changes : ℕ → ℕ → ℕ → List Edit → List Edit → Pc
  reads : ℕ → ℕ → List ℕ → Pc

pub record System : Type 0 where
  pub words : List ℕ
  pub seq : ℕ
  pub threads : ℕ → Pc
  pub owner : Option ℕ
  pub done : ℕ
  pub committed : List ℕ

-- `new(value)`, before any call.
abbrev pub new : ℕ → System
new value = record {
  words =
      u16 value
      ∷ u16 (value / 65536)
      ∷ u16 (value / 4294967296)
      ∷ u16 (value / 281474976710656)
      ∷ [];
  seq = 0;
  threads = λ t. idle;
  owner = none;
  done = 0;
  committed =
      u16 value
      ∷ u16 (value / 65536)
      ∷ u16 (value / 4294967296)
      ∷ u16 (value / 281474976710656)
      ∷ [];
}

abbrev pub at_thread : (ℕ → Pc) → ℕ → Pc → ℕ → Pc
at_thread threads t pc q = if q == t then pc else threads q

pub data Step (s : System) : System → Type 0 where
  -- `begin_write`: the load, the exchange that succeeds, and another round of the loop
  load_write_seq :
      (t : ℕ) (edits : List Edit)
      → s.threads t ≡ idle
      → Step s (record s { threads = at_thread s.threads t (begins edits s.seq) })
  claim :
      (t x : ℕ) (edits : List Edit)
      → s.threads t ≡ begins edits x
      → x % 2 ≡ 0
      → s.seq ≡ x
      → Step s (record s {
        seq = (x + 1) % 4294967296;
        threads = at_thread s.threads t (writes x edits edits);
        owner = some t;
      })
  again :
      (t x : ℕ) (edits : List Edit)
      → s.threads t ≡ begins edits x
      → Step s (record s { threads = at_thread s.threads t idle })
  -- the critical section
  put_word :
      (t x i v : ℕ) (left all : List Edit)
      → s.threads t ≡ writes x (put i v ∷ left) all
      → Step s (record s {
        words = set s.words i v;
        threads = at_thread s.threads t (writes x left all);
      })
  load_word :
      (t x i : ℕ) (f : ℕ → ℕ) (left all : List Edit)
      → s.threads t ≡ writes x (change i f ∷ left) all
      → Step s (record s {
        threads = at_thread s.threads t (changes x i (f (get_or s.words i 0)) left all);
      })
  store_word :
      (t x i v : ℕ) (left all : List Edit)
      → s.threads t ≡ changes x i v left all
      → Step s (record s {
        words = set s.words i v;
        threads = at_thread s.threads t (writes x left all);
      })
  -- `end_write`
  finish :
      (t x : ℕ) (all : List Edit)
      → s.threads t ≡ writes x [] all
      → Step s (record s {
        seq = (x + 2) % 4294967296;
        threads = at_thread s.threads t idle;
        owner = none;
        done = s.done + 1;
        committed = s.words;
      })
  -- an attempt of `try_load_bits`: the first load of an even number, the words, and its end
  load_read_seq :
      (t : ℕ)
      → s.threads t ≡ idle
      → s.seq % 2 ≡ 0
      → Step s (record s { threads = at_thread s.threads t (reads s.seq s.done []) })
  read_word :
      (t before since : ℕ) (loaded : List ℕ)
      → s.threads t ≡ reads before since loaded
      → length loaded < 4
      → Step s (record s {
        threads =
            at_thread s.threads t
              (reads before since (loaded ++ (get_or s.words (length loaded) 0 ∷ [])));
      })
  leave :
      (t before since : ℕ) (loaded : List ℕ)
      → s.threads t ≡ reads before since loaded
      → Step s (record s { threads = at_thread s.threads t idle })

pub data Reach (s : System) : System → Type 0 where
  here : Reach s s
  next : {t u : System} → Reach s t → Step t u → Reach s u
