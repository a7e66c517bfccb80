-- ===== src/Track/Ids/Fresh.antt =====
-- The ids that are minted are free: the loops end before their fuel, and printed numbers read back.
use thaum_painter.Base.{ℕ, zero, suc, ◌+◌, ◌-◌, ◌*◌, ◌%◌, ◌≤◌, ◌<◌, ◌≡◌, refl, ◌∙◌, inl, inr}
use thaum_painter.Base.{
  true, false, some, List, [], ◌∷◌, ◌++◌, length, leb, ltb, u32_max, ◌∈◌, arith,
}
use thaum_painter.Base.{if◌then◌else◌, Bool-cases}
use thaum_painter.Base.Text.{Text, codes, contains, contains_iff}
use Prim.Native.Nat.{◌/◌}
use thaum_painter.Track.Block.{SharedDocumentPropertyBlock as Block}
use thaum_painter.Track.Ids.{print_digits, print_u32, parse_digits, parse_u32}
use thaum_painter.Track.Ids.{block_number, block_prefix, used_numbers, contains_key, first_free}
use thaum_painter.Track.Ids.{next_id, free_id, next_property_block_id, next_free_block_id}

-- How many numbers of the list are at least `n`: what a loop that counts up still may meet.
abbrev count_ge : ℕ → List ℕ → ℕ
count_ge n [] = 0
count_ge n (m ∷ ms) = (if leb n m then 1 else 0) + count_ge n ms

count_ge-suc : (n : ℕ) (ms : List ℕ) → count_ge (n + 1) ms ≤ count_ge n ms
count_ge-suc n [] = omega arith
count_ge-suc n (m ∷ ms) = ground (arith, count_ge-suc n ms)

count_ge-mem : (n : ℕ) (ms : List ℕ) → n ∈ ms → count_ge (n + 1) ms < count_ge n ms
count_ge-mem n [] h = absurd h
count_ge-mem n (m ∷ ms) (inl e) = ground (arith, count_ge-suc n ms)
count_ge-mem n (m ∷ ms) (inr h) = ground (arith, count_ge-mem n ms h)

count_ge-length : (n : ℕ) (ms : List ℕ) → count_ge n ms ≤ length ms
count_ge-length n [] = omega arith
count_ge-length n (m ∷ ms) = ground (arith, count_ge-length n ms)

contains_key-mem : (ms : List ℕ) (n : ℕ) → contains_key ms n ≡ true → n ∈ ms
unfolding contains_key
contains_key-mem [] n h = cc
contains_key-mem (m ∷ ms) n h = ground (arith, contains_key-mem ms n)

mem-contains_key : (ms : List ℕ) (n : ℕ) → n ∈ ms → contains_key ms n ≡ true
unfolding contains_key
mem-contains_key [] n h = absurd h
mem-contains_key (m ∷ ms) n h = ground (arith, mem-contains_key ms n)

first_free_lem :
    (fuel : ℕ) (used : List ℕ) (next : ℕ)
    → count_ge next used ≤ fuel
    → contains_key used (first_free fuel used next) ≡ false
unfolding first_free
first_free_lem zero used next h = elim (Bool-cases (contains_key used next)) [
  | inl e ↦ absurd (omega (arith, count_ge-mem next used (contains_key-mem used next e)))
  | inr e ↦ e
]
first_free_lem (suc fuel) used next h = elim (Bool-cases (contains_key used next)) [
  | inl e ↦
      let fewer = count_ge-mem next used (contains_key-mem used next e) in
      rw (e, first_free) (first_free_lem fuel used (next + 1) (omega arith))
  | inr e ↦ rw (e, first_free) e
]

first_free-le : (fuel : ℕ) (used : List ℕ) (next : ℕ) → first_free fuel used next ≤ next + fuel
unfolding first_free
first_free-le zero used next = omega arith
first_free-le (suc fuel) used next = elim (Bool-cases (contains_key used next)) [
  | inl e ↦ rw (e, first_free) (omega (arith, first_free-le fuel used (next + 1)))
  | inr e ↦ rw (e, first_free) (omega arith)
]

-- The same argument for ids that grow by one character in each round.
abbrev lengths : List Text → List ℕ
lengths [] = []
lengths (s ∷ ss) = length s ∷ lengths ss

length-lengths : (ss : List Text) → length (lengths ss) ≡ length ss
length-lengths [] = refl
length-lengths (s ∷ ss) = omega (arith, length-lengths ss)

mem-lengths : (s : Text) (ss : List Text) → s ∈ ss → length s ∈ lengths ss
mem-lengths s [] h = absurd h
mem-lengths s (t ∷ ss) (inl e) = inl (λ i. length (e i))
mem-lengths s (t ∷ ss) (inr h) = inr (mem-lengths s ss h)

length-append_one : (s : Text) (c : ℕ) → length (s ++ c ∷ []) ≡ length s + 1
length-append_one [] c = omega arith
length-append_one (x ∷ s) c = omega (arith, length-append_one s c)

free_id_lem :
    (fuel : ℕ) (used : List Text) (new_id : Text)
    → count_ge (length new_id) (lengths used) ≤ fuel
    → contains used (free_id fuel used new_id) ≡ false
unfolding free_id
free_id_lem zero used new_id h = elim (Bool-cases (contains used new_id)) [
  | inl e ↦
      let fewer = count_ge-mem _ _ (mem-lengths new_id used ((contains_iff used new_id).0 e)) in
      absurd (omega arith)
  | inr e ↦ e
]
free_id_lem (suc fuel) used new_id h = elim (Bool-cases (contains used new_id)) [
  | inl e ↦
      let fewer = count_ge-mem _ _ (mem-lengths new_id used ((contains_iff used new_id).0 e)) in
      rw (e, free_id)
        (free_id_lem fuel used (new_id ++ codes "x") (rw length-append_one (omega arith)))
  | inr e ↦ rw (e, free_id) e
]

-- Whatever the track holds, the id that the re-tiling mints is none of the used ones.
pub contains-next_free_block_id :
    {Value : Type 0} (used : List Text) (tiled : List (Block Value))
    → contains used (next_free_block_id used tiled) ≡ false
unfolding next_free_block_id
contains-next_free_block_id used tiled =
    free_id_lem (length used) used (next_property_block_id tiled) (
      omega (
        arith,
        count_ge-length (length (next_property_block_id tiled)) (lengths used),
        length-lengths used,
      ))

abbrev StartsByDigit : Text → Type 0
StartsByDigit [] = ⊥
StartsByDigit (c ∷ cs) = 48 ≤ c

print_digits-StartsByDigit :
    (fuel n : ℕ) (acc : Text) → StartsByDigit acc → StartsByDigit (print_digits fuel n acc)
unfolding print_digits
print_digits-StartsByDigit zero n acc h = h
print_digits-StartsByDigit (suc fuel) n acc h = elim (Bool-cases (ltb n 10)) [
  | inl e ↦ rw (e, print_digits) (omega arith)
  | inr e ↦ rw (e, print_digits) (print_digits-StartsByDigit fuel (n / 10) _ (omega arith))
]

print_digits_starts : (fuel n : ℕ) (acc : Text) → 0 < fuel → StartsByDigit (print_digits fuel n acc)
unfolding print_digits
print_digits_starts zero n acc h = absurd (omega arith)
print_digits_starts (suc fuel) n acc h = elim (Bool-cases (ltb n 10)) [
  | inl e ↦ rw (e, print_digits) (omega arith)
  | inr e ↦ rw (e, print_digits) (print_digits-StartsByDigit fuel (n / 10) _ (omega arith))
]

parse_digits-digit :
    (value n : ℕ) (acc : Text)
    → value * 10 + n % 10 ≡ n
    → n ≤ u32_max
    → parse_digits value ((n % 10 + 48) ∷ acc) ≡ parse_digits n acc
unfolding parse_digits
parse_digits-digit value n acc e k =
    let e' : value * 10 + (n % 10 + 48 - 48) ≡ n = omega arith in rw e' (ground arith)

parse_digits-print_digits :
    (fuel n : ℕ) (acc : Text)
    → n < fuel
    → n ≤ u32_max
    → parse_digits 0 (print_digits fuel n acc) ≡ parse_digits n acc
unfolding print_digits
parse_digits-print_digits zero n acc h k = absurd (omega arith)
parse_digits-print_digits (suc fuel) n acc h k = elim (Bool-cases (ltb n 10)) [
  | inl e ↦ rw (e, print_digits) (parse_digits-digit 0 n acc (ground arith) k)
  | inr e ↦
      let upper =
        parse_digits-print_digits fuel (n / 10) ((n % 10 + 48) ∷ acc) (ground arith)
          (omega arith) in
      rw (e, print_digits) (upper ∙ parse_digits-digit (n / 10) n acc (omega arith) k)
]

parse_u32-eq-parse_digits : (s : Text) → StartsByDigit s → parse_u32 s ≡ parse_digits 0 s
unfolding parse_u32
parse_u32-eq-parse_digits [] h = absurd h
parse_u32-eq-parse_digits (c ∷ []) h = ground arith
parse_u32-eq-parse_digits (c ∷ d ∷ cs) h = ground arith

-- `str::parse` reads back what `format!` prints.
pub parse_u32-print_u32 : (n : ℕ) → n ≤ u32_max → parse_u32 (print_u32 n) ≡ some n
unfolding parse_digits print_u32
parse_u32-print_u32 n k =
    parse_u32-eq-parse_digits _ (print_digits_starts (n + 1) n [] (omega arith))
    ∙ parse_digits-print_digits (n + 1) n [] (omega arith) k

block_number-print_u32 : (n : ℕ) → n ≤ u32_max → block_number (block_prefix ++ print_u32 n) ≡ some n
unfolding block_number
block_number-print_u32 n k = parse_u32-print_u32 n k

mem-used_numbers :
    (ids : List Text) (s : Text) (n : ℕ) → s ∈ ids → block_number s ≡ some n → n ∈ used_numbers ids
unfolding used_numbers
mem-used_numbers [] s n h e = absurd h
mem-used_numbers (t ∷ ids) s n h e = ground (arith, mem-used_numbers ids s n)

length-used_numbers : (ids : List Text) → length (used_numbers ids) ≤ length ids
unfolding used_numbers
length-used_numbers [] = omega arith
length-used_numbers (t ∷ ids) = ground (arith, length-used_numbers ids)

pub contains-next_id : (ids : List Text) → length ids < u32_max → contains ids (next_id ids) ≡ false
unfolding next_id
contains-next_id ids h = elim (Bool-cases (contains ids (next_id ids))) [
  | inl e ↦
      let used = used_numbers ids in
      let n = first_free (length used) used 1 in
      let low = first_free-le (length used) used 1 in
      let known =
        mem-used_numbers ids (next_id ids) n ((contains_iff ids (next_id ids)).0 e)
          (block_number-print_u32 n (omega (arith, length-used_numbers ids))) in
      let free = first_free_lem (length used) used 1 (count_ge-length 1 used) in
      ground (arith, mem-contains_key used n known)
  | inr e ↦ e
]
