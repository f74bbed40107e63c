-- ===== src/FixPhrase.antt =====
-- crates/fixphrase/src/lib.rs: coordinates as phrases of four words.
-- A word is its position in `WORDLIST`, whose 7610 words differ, none for a word that is not in it.
-- A coordinate is the number after `round() as i32` and the shift, so from 0 to 1800000 or 3600000,
-- and a decoded one is the digits' number with the divisor that is applied to it before the shift
-- back. The canonical phrase is left out.
pub mod RoundTrip
use neems_core.Prelude.{
  ℕ, zero, suc, Option, none, some, List, [], ltb, length, take, drop, filter, ◌+◌, ◌-◌, ◌*◌, ◌/◌,
  ◌%◌, ◌∷◌, ◌++◌, ◌==◌, if◌then◌else◌,
}

abbrev pub wordlist_length : ℕ
wordlist_length = 7610

-- `format!("{:0k}", n)` for `n` of at most `k` digits, and `parse` of digits.
unfoldable pub digits : ℕ → ℕ → List ℕ
digits zero n = []
digits (suc k) n = digits k (n / 10) ++ n % 10 ∷ []

unfoldable pub parse_from : ℕ → List ℕ → ℕ
parse_from acc [] = acc
parse_from acc (d ∷ ds) = parse_from (acc * 10 + d) ds

unfoldable pub parse : List ℕ → ℕ
unfolding parse_from
parse ds = parse_from 0 ds

-- `s[from..to]`
abbrev pub slice : ℕ → ℕ → List ℕ → List ℕ
slice from to ds = take (to - from) (drop from ds)

-- `groups` of `encode`.
unfoldable pub groups : ℕ → ℕ → List ℕ
unfolding digits parse
groups lat lon =
    let lat_str = digits 7 lat in
    let lon_str = digits 7 lon in
    parse (slice 0 4 lat_str)
    ∷ (parse (slice 0 4 lon_str) + 2000)
    ∷ (parse (slice 4 6 lat_str ++ slice 4 5 lon_str) + 5610)
    ∷ (parse (slice 6 7 lat_str ++ slice 5 7 lon_str) + 6610)
    ∷ []

-- The words at the positions: none unless all four are in the list.
unfoldable pub words_at : List ℕ → Option (List ℕ)
words_at indices =
    let words = filter (λ i. ltb i wordlist_length) indices in
    if length words == 4 then some words else none

-- `encode` after the rounding.
unfoldable pub encode : ℕ → ℕ → Option (List ℕ)
unfolding groups words_at
encode lat lon = words_at (groups lat lon)

-- `indexes`, with none for -1.
pub record Indexes : Type 0 where
  pub lat1dec : Option ℕ
  pub lon1dec : Option ℕ
  pub latlon2dec : Option ℕ
  pub latlon4dec : Option ℕ

abbrev pub no_indexes : Indexes
no_indexes = record { lat1dec = none; lon1dec = none; latlon2dec = none; latlon4dec = none }

-- The body of the loop over the words.
unfoldable pub place : Indexes → Option ℕ → Indexes
place ix none = ix
place ix (some word) =
    if ltb word 2000
    then record ix { lat1dec = some word }
    else if ltb word 5610
    then record ix { lon1dec = some (word - 2000) }
    else if ltb word 6610
    then record ix { latlon2dec = some (word - 5610) }
    else if ltb word 7610
    then record ix { latlon4dec = some (word - 6610) }
    else ix

unfoldable pub place_all : Indexes → List (Option ℕ) → Indexes
unfolding place
place_all ix [] = ix
place_all ix (w ∷ ws) = place_all (place ix w) ws

pub data FixPhraseError : Type 0 where
  not_enough_words invalid_phrase : FixPhraseError

pub data Decoded : Type 0 where
  coordinates : (lat lon divby : ℕ) → Decoded
  refused : FixPhraseError → Decoded

-- The part of `decode` after the loop.
unfoldable pub reconstruct : Indexes → Decoded
unfolding digits parse
reconstruct ix = elim ix.lat1dec [
  | none ↦ refused invalid_phrase
  | some a ↦ elim ix.lon1dec [
    | none ↦ refused invalid_phrase
    | some b ↦ elim ix.latlon2dec [
      | none ↦ coordinates (parse (digits 4 a)) (parse (digits 4 b)) 10
      | some c ↦ elim ix.latlon4dec [
        | none ↦
            coordinates (parse (digits 4 a ++ slice 0 1 (digits 3 c)))
              (parse (digits 4 b ++ slice 2 3 (digits 3 c))) 100
        | some d ↦
            coordinates
              (parse (
                digits 4 a
                ++ slice 0 1 (digits 3 c)
                ++ slice 1 2 (digits 3 c)
                ++ slice 0 1 (digits 3 d)))
              (parse (digits 4 b ++ slice 2 3 (digits 3 c) ++ slice 1 3 (digits 3 d))) 10000
      ]
    ]
  ]
]

-- `decode`, from the positions of the words of the phrase.
unfoldable pub decode : List (Option ℕ) → Decoded
unfolding place_all reconstruct
decode words =
    if ltb (length words) 2
    then refused not_enough_words
    else reconstruct (place_all no_indexes (take 4 words))
