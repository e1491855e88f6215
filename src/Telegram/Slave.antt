-- ===== src/Telegram/Slave.antt =====
-- `createSlave` of src/ebus/core/telegram.hpp: what it accepts, and what the telegram then holds.
use ebus.Base.{
  Bool-cases, List, [], ap, arith, get_or, get_or-append, get_or-append_end, get_or-take,
  if◌then◌else◌, inl, inr, length, length-append, length-take, refl, suc, sym, take, take-append,
  take_last, true, ℕ, ◌++◌, ◌+◌, ◌<◌, ◌==◌, ◌∙◌, ◌∷◌, ◌≡◌, ◌≤◌, ◌⊎◌,
}
use ebus.Types.{SequenceState, is_ok}
use ebus.Sequence.{Sequence, byte_at, crc, reduce, size}
use ebus.Telegram.{
  Telegram, create_slave, create_slave_reduced, fill_slave, max_data_bytes, of_bytes, slave_error,
  slave_header_size,
}
use ebus.Sequence.Slice.{assign_slice-all, assign_slice-take}
use ebus.Sequence.Reduce.{extended-reduce}

-- NN DBx: the slave part without its CRC.
pub record IsSlavePart (bytes : List ℕ) : Type 0 where
  pub count : get_or bytes 0 0 ≤ max_data_bytes
  pub whole : length bytes ≡ slave_header_size + get_or bytes 0 0

-- A telegram whose slave part was read from the bytes of `s`. Without a CRC there is a data byte.
pub record SlaveOf (s : Sequence) (t : Telegram) : Type 0 where
  pub part : IsSlavePart t.slave.sequence
  pub same_flag : t.slave.extended ≡ s.extended
  pub checksum : t.slave_crc ≡ crc t.slave
  pub number : t.slave_nn ≡ get_or t.slave.sequence 0 0
  pub bytes :
      ((s.sequence ≡ t.slave.sequence) × (0 < t.slave_nn))
      ⊎ (s.sequence ≡ t.slave.sequence ++ t.slave_crc ∷ [])

record Header (s : Sequence) : Type 0 where
  two : 2 ≤ size s
  count : byte_at s 0 ≤ max_data_bytes
  enough : slave_header_size + byte_at s 0 ≤ size s

slave_error-Header : (s : Sequence) → slave_error s ≡ SequenceState.seq_ok → Header s
unfolding slave_error
slave_error-Header s h = record { two = ground arith; count = ground arith; enough = ground arith }

Header-slave_error : (s : Sequence) → Header s → slave_error s ≡ SequenceState.seq_ok
unfolding slave_error
Header-slave_error s h = ground arith

is_ok→≡ : (x : SequenceState) → is_ok x ≡ true → x ≡ SequenceState.seq_ok
is_ok→≡ SequenceState.seq_ok h = refl
is_ok→≡ _ h = ground arith

fill_slave-bare :
    (s : Sequence) (t : Telegram)
    → Header s
    → size s ≡ 1 + byte_at s 0
    → fill_slave s t ≡ record t {
      slave_nn = byte_at s 0;
      slave = s;
      slave_crc = crc s;
      slave_state = SequenceState.seq_ok;
    }
unfolding fill_slave
fill_slave-bare s t h e = ground (arith, assign_slice-all s)

abbrev body : Sequence → Sequence
body s = record s { sequence = take (1 + byte_at s 0) s.sequence }

fill_slave_checked :
    (s : Sequence) (t : Telegram)
    → Header s
    → size s ≡ suc (1 + byte_at s 0)
    → fill_slave s t ≡ record t {
      slave_nn = byte_at s 0;
      slave = body s;
      slave_crc = byte_at s (1 + byte_at s 0);
      slave_state =
          if crc (body s) == byte_at s (1 + byte_at s 0)
          then SequenceState.seq_ok
          else SequenceState.err_crc_invalid;
    }
unfolding fill_slave
fill_slave_checked s t h e = ground (arith, assign_slice-take s (1 + byte_at s 0))

fill_slave-too_long :
    (s : Sequence) (t : Telegram)
    → suc (1 + byte_at s 0) < size s
    → (fill_slave s t).slave_state ≡ SequenceState.err_seq_too_long
unfolding fill_slave
fill_slave-too_long s t h = ground arith

bare-SlaveOf :
    (s : Sequence) (t : Telegram) → Header s → size s ≡ 1 + byte_at s 0 → SlaveOf s (fill_slave s t)
bare-SlaveOf s t h e = rw (fill_slave-bare s t h e) (record {
  part = record { count = h.count; whole = e };
  same_flag = refl;
  checksum = refl;
  number = refl;
  bytes = inl (refl, omega (arith, h.two));
})

checked-SlaveOf :
    (s : Sequence) (t : Telegram)
    → Header s
    → size s ≡ suc (1 + byte_at s 0)
    → (fill_slave s t).slave_state ≡ SequenceState.seq_ok
    → SlaveOf s (fill_slave s t)
checked-SlaveOf s t h e good =
    let n = 1 + byte_at s 0 in
    let first = get_or-take n 0 s.sequence 0 (omega arith) in
    rw (fill_slave_checked s t h e) (record {
      part = record {
        count = rw first h.count;
        whole = rw first (omega (arith, length-take n s.sequence, h.enough));
      };
      same_flag = refl;
      checksum = ground (arith, rw (fill_slave_checked s t h e) at good);
      number = sym first;
      bytes = inr (take_last n s.sequence 0 e);
    })

fill_slave-SlaveOf :
    (s : Sequence) (t : Telegram)
    → Header s
    → (fill_slave s t).slave_state ≡ SequenceState.seq_ok
    → SlaveOf s (fill_slave s t)
fill_slave-SlaveOf s t h good = elim (Bool-cases (size s == 1 + byte_at s 0)) [
  | inl e ↦ bare-SlaveOf s t h (ground arith)
  | inr long ↦ elim (Bool-cases (size s == suc (1 + byte_at s 0))) [
    | inl e ↦ checked-SlaveOf s t h (ground arith) good
    | inr longer ↦ absurd (ground (arith, h.enough, fill_slave-too_long s t))
  ]
]

-- Where `createSlave` reports success, the logical bytes of its argument are a well-formed slave part,
-- followed by its CRC, or alone if there is a data byte; the telegram holds that part and its CRC.
pub create_slave_sound :
    (sequence : Sequence) (t : Telegram)
    → (create_slave sequence t).0.slave_state ≡ SequenceState.seq_ok
    → SlaveOf (reduce sequence) (create_slave sequence t).0
unfolding create_slave create_slave_reduced
create_slave_sound sequence t good =
    let s = reduce sequence in
    elim (Bool-cases (is_ok (slave_error s))) [
      | inl e ↦ rw e (fill_slave-SlaveOf s t (slave_error-Header s (is_ok→≡ _ e)) (rw e at good))
      | inr e ↦ absurd (ground arith)
    ]

append-Header :
    (s : Sequence) (m : List ℕ) (c : ℕ) → s.sequence ≡ m ++ c ∷ [] → IsSlavePart m → Header s
append-Header s m c e p =
    let first : byte_at s 0 ≡ get_or m 0 0 =
      ap (λ xs. get_or xs 0 0) e ∙ get_or-append m (c ∷ []) 0 0 (omega (arith, p.whole)) in
    let long : size s ≡ length m + 1 = omega (arith, ap length e, length-append m (c ∷ [])) in
    record {
      two = omega (arith, p.whole);
      count = rw first p.count;
      enough = omega (arith, first, p.whole);
    }

-- `createSlave` reports success on every sequence whose logical bytes are a well-formed slave part
-- followed by its CRC, and the telegram holds that part and that CRC.
pub create_slave_complete :
    (sequence : Sequence) (t : Telegram) (m : List ℕ)
    → IsSlavePart m
    → (reduce sequence).sequence ≡ m ++ crc (of_bytes m) ∷ []
    → ((create_slave sequence t).0.slave_state ≡ SequenceState.seq_ok)
      × ((create_slave sequence t).0.slave ≡ of_bytes m)
      × ((create_slave sequence t).0.slave_crc ≡ crc (of_bytes m))
unfolding create_slave create_slave_reduced
create_slave_complete sequence t m p e =
    let s = reduce sequence in
    let c = crc (of_bytes m) in
    let h = append-Header s m c e p in
    let nn : byte_at s 0 ≡ get_or m 0 0 =
      ap (λ xs. get_or xs 0 0) e ∙ get_or-append m (c ∷ []) 0 0 (omega (arith, p.whole)) in
    let len : 1 + byte_at s 0 ≡ length m = omega (arith, nn, p.whole) in
    let front : take (1 + byte_at s 0) s.sequence ≡ m =
      rw len (ap (take (length m)) e ∙ take-append m (c ∷ [])) in
    let cut : body s ≡ of_bytes m = ground (arith, extended-reduce sequence, front) in
    let last : byte_at s (1 + byte_at s 0) ≡ c =
      rw len (ap (λ xs. get_or xs (length m) 0) e ∙ get_or-append_end m (c ∷ []) 0) in
    let long : size s ≡ suc (1 + byte_at s 0) =
      omega (arith, ap length e, length-append m (c ∷ []), len) in
    rw (Header-slave_error s h, fill_slave_checked s t h long)
      (ground (arith, ap crc cut, last), cut, last)
