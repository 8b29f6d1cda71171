-- ===== src/Providers.antt =====
-- src/GlobalConfig.hpp, and the loop over its addresses that connectToAnyProvider in
-- src/client/app_client.cpp and startServerInAnyAddress in src/frontend/app_frontend.cpp share. What
-- an attempt at an address gives is an argument, with the number of the attempt.
use twitter_clone.Prelude.{
  ℕ, zero, suc, ◌+◌, ◌%◌, ◌^◌, ◌<◌, ◌≡◌, ◌≢◌, refl, sym, subst, List, [], ◌∷◌, ◌++◌, Option, none,
  some, arith, length, take, drop, get_elem?, Bytes, codes, ◌⊎◌, inl, inr,
}

pub record Address : Type 0 where
  pub ip : Bytes
  pub port : ℕ

abbrev pub front_end : ℕ → Address
front_end port = record { ip = codes "0.0.0.0"; port = port }

-- FRONTEND_ADDRESSES.
unfoldable pub frontend_addresses : List Address
frontend_addresses = front_end 5555 ∷ front_end 6666 ∷ front_end 7777 ∷ front_end 8888 ∷ []

-- SERVER_ADDR.
abbrev pub server_address : Address
server_address = record { ip = codes "0.0.0.0"; port = 8080 }

module _ {ℓ} {C : Type ℓ} (attempt : ℕ → Address → Option C) where
  -- The attempt at an element of the vector; no index is out of range.
  abbrev attempt_at : ℕ → Option Address → Option C
  attempt_at tries none = none
  attempt_at tries (some a) = attempt tries a

  abbrev or_else : Option C → Option C → Option C
  or_else none later = later
  or_else (some c) later = some c

  -- `left` attempts are left. idxCurr is an unsigned int.
  unfoldable pub try_from : ℕ → ℕ → ℕ → Option C
  try_from zero tries index = none
  try_from (suc left) tries index =
      or_else (attempt_at tries (get_elem? frontend_addresses (index % length frontend_addresses)))
        (try_from left (tries + 1) ((index + 1) % 2 ^ 32))

  -- From a random number.
  unfoldable pub try_any : ℕ → Option C
  try_any random = try_from (length frontend_addresses) 0 (random % length frontend_addresses)

  -- The first attempt of a list that succeeds, the attempts counted from `tries`.
  unfoldable pub first_success : ℕ → List Address → Option C
  first_success tries [] = none
  first_success tries (a ∷ rest) = or_else (attempt tries a) (first_success (tries + 1) rest)

  abbrev pub rotated : ℕ → List Address → List Address
  rotated n rest = drop n rest ++ take n rest

  try_from-rotated :
      (i : ℕ) → i < 4 → try_from 4 0 i ≡ first_success 0 (rotated i frontend_addresses)
  unfolding try_from first_success frontend_addresses
  try_from-rotated zero h = refl
  try_from-rotated (suc zero) h = refl
  try_from-rotated (suc (suc zero)) h = refl
  try_from-rotated (suc (suc (suc zero))) h = refl
  try_from-rotated (suc (suc (suc (suc i)))) h = absurd (omega arith)

  abbrev pub IsOneOf : Address → List Address → Type 0
  IsOneOf a [] = ⊥
  IsOneOf a (b ∷ rest) = (b ≡ a) ⊎ IsOneOf a rest

  or_else-some : (o later : Option C) → later ≢ none → or_else o later ≢ none
  or_else-some none later h e = h e
  or_else-some (some c) later h e = cc

  or_else-first : (o later : Option C) → o ≢ none → or_else o later ≢ none
  or_else-first none later h e = h refl
  or_else-first (some c) later h e = cc

  first_success-some :
      (tries : ℕ) (a : Address) (rest : List Address)
      → IsOneOf a rest
      → ((k : ℕ) → attempt k a ≢ none)
      → first_success tries rest ≢ none
  unfolding first_success
  first_success-some tries a [] m h = absurd m
  first_success-some tries a (b ∷ rest) m h = elim m [
    | inl e ↦
        or_else-first (attempt tries b) _ (subst (λ x. attempt tries x ≢ none) (sym e) (h tries))
    | inr there ↦ or_else-some (attempt tries b) _ (first_success-some (tries + 1) a rest there h)
  ]

  rotated-IsOneOf :
      (i : ℕ) (a : Address)
      → i < 4
      → IsOneOf a frontend_addresses
      → IsOneOf a (rotated i frontend_addresses)
  unfolding frontend_addresses
  rotated-IsOneOf zero a h m = ground arith
  rotated-IsOneOf (suc zero) a h m = ground arith
  rotated-IsOneOf (suc (suc zero)) a h m = ground arith
  rotated-IsOneOf (suc (suc (suc zero))) a h m = ground arith
  rotated-IsOneOf (suc (suc (suc (suc i)))) a h m = absurd (omega arith)

  try_any-rotated :
      (random : ℕ) → try_any random ≡ first_success 0 (rotated (random % 4) frontend_addresses)
  unfolding try_any frontend_addresses
  try_any-rotated random = try_from-rotated (random % 4) (omega arith)

  -- From whatever random number it starts, the loop gives the first success along the addresses, each
  -- tried at most once and in their order behind the first, which wraps around; and if some address
  -- accepts every attempt, it gives a success.
  pub try_any_lem :
      (random : ℕ)
      → (try_any random ≡ first_success 0 (rotated (random % 4) frontend_addresses))
        × ((a : Address)
            → IsOneOf a frontend_addresses
            → ((k : ℕ) → attempt k a ≢ none)
            → try_any random ≢ none)
  try_any_lem random = (
    try_any-rotated random,
    λ a m h.
        subst (λ o. o ≢ none) (sym (try_any-rotated random))
          (first_success-some 0 a _ (rotated-IsOneOf (random % 4) a (omega arith) m) h),
  )
