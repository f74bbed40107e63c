-- ===== src/FixPhrase/RoundTrip.antt =====
-- What a phrase decodes to: the coordinates it was made from.
use neems_core.FixPhrase.{
  Indexes, decode, words_at, coordinates, encode, no_indexes, place, place_all, reconstruct, digits,
  groups, parse, parse_from,
}
use neems_core.Prelude.{
  ℕ, refl, ap, true, Option, none, some, List, [], map, arith, ltb, take, ◌+◌, ◌-◌, ◌*◌, ◌/◌, ◌%◌,
  ◌≤◌, ◌<◌, ◌≡◌, ◌∙◌, ◌∷◌,
}

abbrev pub four : ℕ → ℕ → ℕ → ℕ → List ℕ
four a b c d = a ∷ b ∷ c ∷ d ∷ []

four-eq :
    {a a' b b' c c' d d' : ℕ} → a ≡ a' → b ≡ b' → c ≡ c' → d ≡ d' → four a b c d ≡ four a' b' c' d'
four-eq e f g h = rw e (rw f (rw g (rw h refl)))

coordinates-eq : {a a' b b' c : ℕ} → a ≡ a' → b ≡ b' → coordinates a b c ≡ coordinates a' b' c
coordinates-eq e f = rw e (rw f refl)

-- The four positions of a phrase, each in the part of the list for its place.
groups_lem :
    (lat lon : ℕ)
    → lat ≤ 1800000
    → lon ≤ 3600000
    → groups lat lon
      ≡ four
          (lat / 1000)
          (lon / 1000 + 2000)
          (lat / 10 % 100 * 10 + lon / 100 % 10 + 5610)
          (lat % 10 * 100 + lon % 100 + 6610)
unfolding groups digits parse parse_from
groups_lem lat lon h k = four-eq (ground arith) (ground arith) (ground arith) (ground arith)

module _ (ix : Indexes) where
  place-lat1dec : (a : ℕ) → a < 2000 → place ix (some a) ≡ record ix { lat1dec = some a }
  unfolding place
  place-lat1dec a h = ground arith

  place-lon1dec : (b : ℕ) → b < 3610 → place ix (some (b + 2000)) ≡ record ix { lon1dec = some b }
  unfolding place
  place-lon1dec b h = let e : b + 2000 - 2000 ≡ b = omega arith in rw e (ground arith)

  place-latlon2dec :
      (c : ℕ) → c < 1000 → place ix (some (c + 5610)) ≡ record ix { latlon2dec = some c }
  unfolding place
  place-latlon2dec c h = let e : c + 5610 - 5610 ≡ c = omega arith in rw e (ground arith)

  place-latlon4dec :
      (d : ℕ) → d < 1000 → place ix (some (d + 6610)) ≡ record ix { latlon4dec = some d }
  unfolding place
  place-latlon4dec d h = let e : d + 6610 - 6610 ≡ d = omega arith in rw e (ground arith)

words_at-four :
    (a b c d : ℕ)
    → a < 7610
    → b < 7610
    → c < 7610
    → d < 7610
    → words_at (four a b c d) ≡ some (four a b c d)
unfolding words_at
words_at-four a b c d ha hb hc hd =
    let ea : ltb a 7610 ≡ true = ground arith in
    let eb : ltb b 7610 ≡ true = ground arith in
    let ec : ltb c 7610 ≡ true = ground arith in
    let ed : ltb d 7610 ≡ true = ground arith in rw (ea, eb, ec, ed) refl

-- The indexes of the four parts, for the coordinates that give them.
reconstruct_four :
    (lat lon : ℕ)
    → lat ≤ 1800000
    → lon ≤ 3600000
    → reconstruct (record {
      lat1dec = some (lat / 1000);
      lon1dec = some (lon / 1000);
      latlon2dec = some (lat / 10 % 100 * 10 + lon / 100 % 10);
      latlon4dec = some (lat % 10 * 100 + lon % 100);
    })
      ≡ coordinates lat lon 10000
unfolding reconstruct digits parse parse_from
reconstruct_four lat lon h k = coordinates-eq (omega arith) (omega arith)

reconstruct_three :
    (lat lon : ℕ)
    → lat ≤ 1800000
    → lon ≤ 3600000
    → reconstruct (record {
      lat1dec = some (lat / 1000);
      lon1dec = some (lon / 1000);
      latlon2dec = some (lat / 10 % 100 * 10 + lon / 100 % 10);
      latlon4dec = none;
    })
      ≡ coordinates (lat / 100) (lon / 100) 100
unfolding reconstruct digits parse parse_from
reconstruct_three lat lon h k = coordinates-eq (omega arith) (omega arith)

reconstruct_two :
    (lat lon : ℕ)
    → lat ≤ 1800000
    → lon ≤ 3600000
    → reconstruct (record {
      lat1dec = some (lat / 1000);
      lon1dec = some (lon / 1000);
      latlon2dec = none;
      latlon4dec = none;
    })
      ≡ coordinates (lat / 1000) (lon / 1000) 10
unfolding reconstruct digits parse parse_from
reconstruct_two lat lon h k = coordinates-eq (omega arith) (omega arith)

place_all-step :
    (ix next : Indexes) (w : Option ℕ) (ws : List (Option ℕ))
    → place ix w ≡ next
    → place_all ix (w ∷ ws) ≡ place_all next ws
unfolding place_all
place_all-step ix next w ws e = ap (λ i. place_all i ws) e

-- The indexes after two, three and four words in the parts of the list in order.
module _ (a b : ℕ) (ha : a < 2000) (hb : b < 3610) where
  placed_two :
      (ws : List (Option ℕ))
      → place_all no_indexes (some a ∷ some (b + 2000) ∷ ws)
        ≡ place_all
            (record { lat1dec = some a; lon1dec = some b; latlon2dec = none; latlon4dec = none })
            ws
  placed_two ws =
      place_all-step no_indexes _ (some a) (some (b + 2000) ∷ ws) (place-lat1dec no_indexes a ha)
      ∙ place_all-step _ _ (some (b + 2000)) ws (place-lon1dec _ b hb)

  placed_three :
      (c : ℕ) (ws : List (Option ℕ))
      → c < 1000
      → place_all no_indexes (some a ∷ some (b + 2000) ∷ some (c + 5610) ∷ ws)
        ≡ place_all
            (record { lat1dec = some a; lon1dec = some b; latlon2dec = some c; latlon4dec = none })
            ws
  placed_three c ws hc =
      placed_two (some (c + 5610) ∷ ws)
      ∙ place_all-step _ _ (some (c + 5610)) ws (place-latlon2dec _ c hc)

  placed_four :
      (c d : ℕ)
      → c < 1000
      → d < 1000
      → place_all no_indexes (some a ∷ some (b + 2000) ∷ some (c + 5610) ∷ some (d + 6610) ∷ [])
        ≡ place_all
            (record {
              lat1dec = some a;
              lon1dec = some b;
              latlon2dec = some c;
              latlon4dec = some d;
            })
            []
  placed_four c d hc hd =
      placed_three c (some (d + 6610) ∷ []) hc
      ∙ place_all-step _ _ (some (d + 6610)) [] (place-latlon4dec _ d hd)

-- The phrase of a rounded pair of coordinates in range exists, and decodes to exactly that pair.
-- Its first three words alone decode to the coordinates cut to two decimals, and its first two to
-- the coordinates cut to one.
pub decode-encode :
    (lat lon : ℕ)
    → lat ≤ 1800000
    → lon ≤ 3600000
    → (ws : List ℕ) × (encode lat lon ≡ some ws)
      × (decode (map some ws) ≡ coordinates lat lon 10000)
      × (decode (take 3 (map some ws)) ≡ coordinates (lat / 100) (lon / 100) 100)
      × (decode (take 2 (map some ws)) ≡ coordinates (lat / 1000) (lon / 1000) 10)
unfolding decode encode place_all
decode-encode lat lon h k =
    let ha : lat / 1000 < 2000 = omega arith in
    let hb : lon / 1000 < 3610 = omega arith in
    let c : ℕ = lat / 10 % 100 * 10 + lon / 100 % 10 in
    let d : ℕ = lat % 10 * 100 + lon % 100 in
    let hc : c < 1000 = omega arith in
    let hd : d < 1000 = omega arith in
    (
      four (lat / 1000) (lon / 1000 + 2000) (c + 5610) (d + 6610),
      ap words_at (groups_lem lat lon h k)
          ∙ words_at-four _ _ _ _ (omega arith) (omega arith) (omega arith) (omega arith),
      ap reconstruct (placed_four (lat / 1000) (lon / 1000) ha hb c d hc hd)
          ∙ reconstruct_four lat lon h k,
      ap reconstruct (placed_three (lat / 1000) (lon / 1000) ha hb c [] hc)
          ∙ reconstruct_three lat lon h k,
      ap reconstruct (placed_two (lat / 1000) (lon / 1000) ha hb []) ∙ reconstruct_two lat lon h k,
    )
