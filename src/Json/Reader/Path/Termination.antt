-- ===== src/Json/Reader/Path/Termination.antt =====
-- src/ebus/utils/json_reader.cpp: the search for a key ends, since every token but the last takes a byte.
use ebus.Base.{Bool, arith, false, length, refl, some, suc, true, zero, ℕ, ◌+◌, ◌<◌, ◌≡◌}
use ebus.Json.{Text}
use ebus.Json.Reader.{JsonReader, Token, behind, next}
use ebus.Json.Reader.Path.{Turn, find, find_key, find_turn, is_stop, found, missing, continue_at}
use ebus.Json.Reader.Advance.{next-Advances}

continue_at-is_stop :
    (target : Text) (depth depth' : ℕ) (r : JsonReader) (token : Token)
    → find_turn target depth r token ≡ continue_at depth'
    → is_stop token ≡ false
unfolding find_turn
continue_at-is_stop target depth depth' r token e = ground arith

after_turn :
    (fuel : ℕ) (target : Text) (r : JsonReader) (turn : Turn)
    → ((d : ℕ)
        → turn ≡ continue_at d
        → (res : JsonReader × Bool) × (find_key fuel target d r ≡ some res))
    → (res : JsonReader × Bool) × ((elim turn [
      | found ↦ some (r, true)
      | missing ↦ some (r, false)
      | continue_at depth' ↦ find_key fuel target depth' r
    ])
        ≡ some res)
after_turn fuel target r found again = ((r, true), refl)
after_turn fuel target r missing again = ((r, false), refl)
after_turn fuel target r (continue_at d) again = again d refl

find_key-total :
    (fuel : ℕ) (target : Text) (depth : ℕ) (r : JsonReader)
    → length (behind r) < fuel
    → (res : JsonReader × Bool) × (find_key fuel target depth r ≡ some res)
unfolding find_key
find_key-total zero target depth r l = absurd (omega arith)
find_key-total (suc fuel) target depth r l =
    after_turn fuel target (next r).0 (find_turn target depth (next r).0 (next r).1) (λ d e.
      find_key-total fuel target d (next r).0 (
        omega
          (arith, next-Advances r (continue_at-is_stop target depth d (next r).0 (next r).1 e))))

-- The search for a key ends, whatever the text is and wherever the reader stands in it: the fuel of `find` is
-- never used up.
pub find-total :
    (target : Text) (r : JsonReader) → (res : JsonReader × Bool) × (find target r ≡ some res)
unfolding find
find-total target r = find_key-total (length (behind r) + 1) target 0 r (omega arith)
