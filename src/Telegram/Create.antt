-- ===== src/Telegram/Create.antt =====
-- `createMaster` of src/ebus/core/telegram.hpp: what it accepts, and what the telegram then holds.
use ebus.Base.{
  Bool-cases, List, [], ap, append-nil, arith, false, get_or, get_or-append, get_or-append_end,
  get_or-take, if◌then◌else◌, inl, inr, length, length-append, length-take, refl, subst, suc, sym,
  take, take-all, take-append, take_last, true, ℕ, ◌++◌, ◌+◌, ◌<◌, ◌==◌, ◌∙◌, ◌∷◌, ◌≡◌, ◌≤◌, ◌⊎◌,
}
use ebus.Symbols.{needs_escape}
use ebus.Address.{is_master, is_target, type_of}
use ebus.Types.{SequenceState, is_ok}
use ebus.Sequence.{Sequence, byte_at, crc, size, reduce}
use ebus.Telegram.{
  Telegram, master_error, master_header_size, max_data_bytes, create_master_reduced, fill_master,
  create_master, of_bytes,
}
use ebus.Sequence.Slice.{assign_slice-all, assign_slice-take}
use ebus.Sequence.Reduce.{extended-reduce}

-- QQ ZZ PB SB NN DBx: the master part without its CRC.
pub record IsMasterPart (bytes : List ℕ) : Type 0 where
  pub source : is_master (get_or bytes 0 0) ≡ true
  pub target : is_target (get_or bytes 1 0) ≡ true
  pub primary : needs_escape (get_or bytes 2 0) ≡ false
  pub secondary : needs_escape (get_or bytes 3 0) ≡ false
  pub count : get_or bytes 4 0 ≤ max_data_bytes
  pub whole : length bytes ≡ master_header_size + get_or bytes 4 0

-- A telegram whose master part was read from the bytes of `s`.
pub record MasterOf (s : Sequence) (t : Telegram) : Type 0 where
  pub part : IsMasterPart t.master.sequence
  pub same_flag : t.master.extended ≡ s.extended
  pub checksum : t.master_crc ≡ crc t.master
  pub kind : t.telegram_type ≡ type_of (get_or t.master.sequence 1 0)
  pub number : t.master_nn ≡ get_or t.master.sequence 4 0
  pub bytes :
      (s.sequence ≡ t.master.sequence) ⊎ (s.sequence ≡ t.master.sequence ++ t.master_crc ∷ [])

-- What the tests in front of the CRC establish.
record Header (s : Sequence) : Type 0 where
  source : is_master (byte_at s 0) ≡ true
  target : is_target (byte_at s 1) ≡ true
  primary : needs_escape (byte_at s 2) ≡ false
  secondary : needs_escape (byte_at s 3) ≡ false
  count : byte_at s 4 ≤ max_data_bytes
  enough : master_header_size + byte_at s 4 ≤ size s

master_error-Header : (s : Sequence) → master_error s ≡ SequenceState.seq_ok → Header s
unfolding master_error needs_escape
master_error-Header s h = record {
  source = ground arith;
  target = ground arith;
  primary = ground arith;
  secondary = ground arith;
  count = ground arith;
  enough = ground arith;
}

Header-master_error : (s : Sequence) → Header s → master_error s ≡ SequenceState.seq_ok
unfolding master_error needs_escape
Header-master_error s h = ground arith

is_ok→≡ : (x : SequenceState) → is_ok x ≡ true → x ≡ SequenceState.seq_ok
is_ok→≡ SequenceState.seq_ok h = refl
is_ok→≡ _ h = ground arith

Header-take :
    (s : Sequence) → Header s → IsMasterPart (take (master_header_size + byte_at s 4) s.sequence)
Header-take s h =
    let xs = s.sequence in
    let n = master_header_size + byte_at s 4 in
    let entry = λ (i : ℕ) (l : i < n). get_or-take n i xs 0 l in
    record {
      source = rw (entry 0 (omega arith)) h.source;
      target = rw (entry 1 (omega arith)) h.target;
      primary = rw (entry 2 (omega arith)) h.primary;
      secondary = rw (entry 3 (omega arith)) h.secondary;
      count = rw (entry 4 (omega arith)) h.count;
      whole = rw (entry 4 (omega arith)) (omega (arith, length-take n xs, h.enough));
    }

fill_master-bare :
    (s : Sequence) (t : Telegram)
    → Header s
    → size s ≡ master_header_size + byte_at s 4
    → fill_master s t ≡ record t {
      telegram_type = type_of (byte_at s 1);
      master_nn = byte_at s 4;
      master = s;
      master_crc = crc s;
      master_state = SequenceState.seq_ok;
    }
unfolding fill_master
fill_master-bare s t h e = ground (arith, assign_slice-all s)

abbrev body : Sequence → Sequence
body s = record s { sequence = take (master_header_size + byte_at s 4) s.sequence }

fill_master_checked :
    (s : Sequence) (t : Telegram)
    → Header s
    → size s ≡ suc (master_header_size + byte_at s 4)
    → fill_master s t ≡ record t {
      telegram_type = type_of (byte_at s 1);
      master_nn = byte_at s 4;
      master = body s;
      master_crc = byte_at s (master_header_size + byte_at s 4);
      master_state =
          if crc (body s) == byte_at s (master_header_size + byte_at s 4)
          then SequenceState.seq_ok
          else SequenceState.err_crc_invalid;
    }
unfolding fill_master
fill_master_checked s t h e = ground (arith, assign_slice-take s (master_header_size + byte_at s 4))

fill_master-too_long :
    (s : Sequence) (t : Telegram)
    → suc (master_header_size + byte_at s 4) < size s
    → (fill_master s t).master_state ≡ SequenceState.err_seq_too_long
unfolding fill_master
fill_master-too_long s t h = ground arith

bare-MasterOf :
    (s : Sequence) (t : Telegram)
    → Header s
    → size s ≡ master_header_size + byte_at s 4
    → MasterOf s (fill_master s t)
bare-MasterOf s t h e =
    let whole : take (master_header_size + byte_at s 4) s.sequence ≡ s.sequence =
      take-all (master_header_size + byte_at s 4) s.sequence (omega arith) in
    rw (fill_master-bare s t h e) (record {
      part = subst IsMasterPart whole (Header-take s h);
      same_flag = refl;
      checksum = refl;
      kind = refl;
      number = refl;
      bytes = inl refl;
    })

checked-MasterOf :
    (s : Sequence) (t : Telegram)
    → Header s
    → size s ≡ suc (master_header_size + byte_at s 4)
    → (fill_master s t).master_state ≡ SequenceState.seq_ok
    → MasterOf s (fill_master s t)
checked-MasterOf s t h e good =
    let n = master_header_size + byte_at s 4 in
    let entry = λ (i : ℕ) (l : i < n). get_or-take n i s.sequence 0 l in
    rw (fill_master_checked s t h e) (record {
      part = Header-take s h;
      same_flag = refl;
      checksum = ground (arith, rw (fill_master_checked s t h e) at good);
      kind = ap type_of (sym (entry 1 (omega arith)));
      number = sym (entry 4 (omega arith));
      bytes = inr (take_last n s.sequence 0 e);
    })

fill_master-MasterOf :
    (s : Sequence) (t : Telegram)
    → Header s
    → (fill_master s t).master_state ≡ SequenceState.seq_ok
    → MasterOf s (fill_master s t)
fill_master-MasterOf s t h good = elim (Bool-cases (size s == master_header_size + byte_at s 4)) [
  | inl e ↦ bare-MasterOf s t h (ground arith)
  | inr long ↦ elim (Bool-cases (size s == suc (master_header_size + byte_at s 4))) [
    | inl e ↦ checked-MasterOf s t h (ground arith) good
    | inr longer ↦ absurd (ground (arith, h.enough, fill_master-too_long s t))
  ]
]

create_master_reduced_sound :
    (s : Sequence) (t : Telegram)
    → (create_master_reduced s t).master_state ≡ SequenceState.seq_ok
    → MasterOf s (create_master_reduced s t)
unfolding create_master_reduced
create_master_reduced_sound s t good = elim (Bool-cases (is_ok (master_error s))) [
  | inl e ↦ rw e (fill_master-MasterOf s t (master_error-Header s (is_ok→≡ _ e)) (rw e at good))
  | inr e ↦ absurd (ground arith)
]

append-Header :
    (s : Sequence) (m tail : List ℕ) → s.sequence ≡ m ++ tail → IsMasterPart m → Header s
append-Header s m tail e p =
    let entry =
      λ (i : ℕ) (l : i < length m). ap (λ xs. get_or xs i 0) e ∙ get_or-append m tail i 0 l in
    let five : 5 ≤ length m = omega (arith, p.whole) in
    record {
      source = rw (entry 0 (omega arith)) p.source;
      target = rw (entry 1 (omega arith)) p.target;
      primary = rw (entry 2 (omega arith)) p.primary;
      secondary = rw (entry 3 (omega arith)) p.secondary;
      count = rw (entry 4 (omega arith)) p.count;
      enough =
          rw (entry 4 (omega arith)) (omega (arith, p.whole, ap length e, length-append m tail));
    }

create_master_reduced-Header :
    (s : Sequence) (t : Telegram) → Header s → create_master_reduced s t ≡ fill_master s t
unfolding create_master_reduced
create_master_reduced-Header s t h = rw (Header-master_error s h) refl

create_master_reduced-bare :
    (s : Sequence) (t : Telegram)
    → IsMasterPart s.sequence
    → ((create_master_reduced s t).master_state ≡ SequenceState.seq_ok)
      × ((create_master_reduced s t).master ≡ s)
create_master_reduced-bare s t p =
    let h = append-Header s s.sequence [] (sym (append-nil s.sequence)) p in
    rw (create_master_reduced-Header s t h, fill_master-bare s t h p.whole) (refl, refl)

create_master_reduced_checked :
    (s : Sequence) (t : Telegram) (m : List ℕ)
    → s.sequence ≡ m ++ crc (record s { sequence = m }) ∷ []
    → IsMasterPart m
    → ((create_master_reduced s t).master_state ≡ SequenceState.seq_ok)
      × ((create_master_reduced s t).master ≡ record s { sequence = m })
create_master_reduced_checked s t m e p =
    let c = crc (record s { sequence = m }) in
    let h = append-Header s m (c ∷ []) e p in
    let nn : byte_at s 4 ≡ get_or m 4 0 =
      ap (λ xs. get_or xs 4 0) e ∙ get_or-append m (c ∷ []) 4 0 (omega (arith, p.whole)) in
    let len : master_header_size + byte_at s 4 ≡ length m = omega (arith, nn, p.whole) in
    let cut : body s ≡ record s { sequence = m } =
      ap (λ xs. record s { sequence = xs })
        (rw len (ap (take (length m)) e ∙ take-append m (c ∷ []))) in
    let last : byte_at s (master_header_size + byte_at s 4) ≡ c =
      rw len (ap (λ xs. get_or xs (length m) 0) e ∙ get_or-append_end m (c ∷ []) 0) in
    let long : size s ≡ suc (master_header_size + byte_at s 4) =
      omega (arith, ap length e, length-append m (c ∷ []), len) in
    rw (create_master_reduced-Header s t h, fill_master_checked s t h long)
      (ground (arith, ap crc cut, last), cut)

-- Where `createMaster` reports success, the logical bytes of its argument are a well-formed master part,
-- alone or followed by its CRC; the telegram holds that part, its CRC, its type and its data count.
pub create_master_sound :
    (sequence : Sequence) (t : Telegram)
    → (create_master sequence t).0.master_state ≡ SequenceState.seq_ok
    → MasterOf (reduce sequence) (create_master sequence t).0
unfolding create_master
create_master_sound sequence t good = create_master_reduced_sound (reduce sequence) t good

-- `createMaster` reports success on every sequence whose logical bytes are a well-formed master part,
-- alone or followed by its CRC, and the telegram holds that part.
pub create_master_complete :
    (sequence : Sequence) (t : Telegram) (m : List ℕ)
    → IsMasterPart m
    → ((reduce sequence).sequence ≡ m) ⊎ ((reduce sequence).sequence ≡ m ++ crc (of_bytes m) ∷ [])
    → ((create_master sequence t).0.master_state ≡ SequenceState.seq_ok)
      × ((create_master sequence t).0.master ≡ of_bytes m)
unfolding create_master
create_master_complete sequence t m p (inl e) =
    let done = create_master_reduced-bare (reduce sequence) t (subst IsMasterPart (sym e) p) in
    (done.0, done.1 ∙ ground (arith, e, extended-reduce sequence))
create_master_complete sequence t m p (inr e) =
    let flag : record (reduce sequence) { sequence = m } ≡ of_bytes m =
      ground (arith, extended-reduce sequence) in
    let done =
      create_master_reduced_checked (reduce sequence) t m (e ∙ ap (λ s. m ++ crc s ∷ []) (sym flag))
        p in
    (done.0, done.1 ∙ flag)
