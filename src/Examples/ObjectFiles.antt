-- ===== src/Examples/ObjectFiles.antt =====
-- Files in memory, with the calls that the reader of object files makes.
use xmachine.Base.{ℕ, zero, suc, Bool, Option, ◌≡◌, refl, true, false, none, some, List, [], ◌∷◌}
use xmachine.Attic.Objects.{Stream}
use xmachine.Attic.Objects.Blocks.{StreamLaws}

-- A file in memory: the bytes read, the last first, those left, and whether a read has met the end.
abbrev pub File : Type 0
File = List ℕ × List ℕ × Bool

abbrev get_from : File → Option ℕ × File
get_from (read, [], met_end) = (none, (read, [], true))
get_from (read, b ∷ bytes, met_end) = (some b, (b ∷ read, bytes, false))

abbrev go_back : ℕ → File → File
go_back zero (read, left, met_end) = (read, left, false)
go_back (suc n) ([], left, met_end) = ([], left, false)
go_back (suc n) (b ∷ read, left, met_end) = go_back n (read, b ∷ left, met_end)

abbrev pub file_stream : Stream File
file_stream = record { get = get_from; at_end = λ f. f.2; back = go_back }

abbrev LeftIn : List ℕ → File → Type 0
LeftIn bytes f = (f.1 ≡ bytes) × (f.2 ≡ false)

pub get_from_lem :
    (b : ℕ) (bytes : List ℕ) (f : File)
    → LeftIn (b ∷ bytes) f
    → ((get_from f).0 ≡ some b) × LeftIn bytes (get_from f).1
get_from_lem b bytes (read, [], met_end) h = absurd (cc)
get_from_lem b bytes (read, x ∷ left, met_end) h = (cc, (cc, refl))

pub go_back_lem :
    (a b c d e : ℕ) (bytes : List ℕ) (f : File)
    → LeftIn (a ∷ b ∷ c ∷ d ∷ e ∷ bytes) f
    → LeftIn
        (a ∷ b ∷ c ∷ d ∷ e ∷ bytes)
        (go_back 5 (get_from (get_from (get_from (get_from (get_from f).1).1).1).1).1)
go_back_lem a b c d e bytes (read, (v ∷ w ∷ x ∷ y ∷ z ∷ left), met_end) h = (h.0, refl)
go_back_lem a b c d e bytes (read, [], met_end) h = absurd (cc)
go_back_lem a b c d e bytes (read, (v ∷ []), met_end) h = absurd (cc)
go_back_lem a b c d e bytes (read, (v ∷ w ∷ []), met_end) h = absurd (cc)
go_back_lem a b c d e bytes (read, (v ∷ w ∷ x ∷ []), met_end) h = absurd (cc)
go_back_lem a b c d e bytes (read, (v ∷ w ∷ x ∷ y ∷ []), met_end) h = absurd (cc)

unfoldable pub file_laws : StreamLaws file_stream
file_laws = record {
  Left = LeftIn;
  get_first = get_from_lem;
  before_end = λ bytes f h. h.1;
  back_five = go_back_lem;
}
