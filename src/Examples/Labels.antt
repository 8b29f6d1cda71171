-- ===== src/Examples/Labels.antt =====
-- A message in the window for responses, over what stood there before.
use twitter_clone.Prelude.{
  ℕ, zero, suc, ◌+◌, ◌≤◌, ◌<◌, ◌≡◌, refl, arith, true, [], ◌∷◌, some, length, get_elem?, Bytes,
  codes, ◌==◌, if◌then◌else◌,
}
use twitter_clone.Client.Screen.{Terminal}
use twitter_clone.Client.Screen.Response.{shown, response_lem}

over : Bytes → ℕ → (ℕ → ℕ) → ℕ → ℕ
over [] x row j = row j
over (c ∷ t) x row j = let rest = over t (x + 1) row j in if j == x then c else rest

over-in :
    (t : Bytes) (x : ℕ) (row : ℕ → ℕ) (i j c : ℕ)
    → x + i ≡ j
    → get_elem? t i ≡ some c
    → over t x row j ≡ c
unfolding over
over-in [] x row i j c h e = absurd cc
over-in (d ∷ t) x row zero j c h e = ground arith
over-in (d ∷ t) x row (suc i) j c h e = ground (arith, over-in t (x + 1) row i j c)

over-behind :
    (t : Bytes) (x : ℕ) (row : ℕ → ℕ) (i j : ℕ) → x + i ≡ j → length t ≤ i → over t x row j ≡ row j
unfolding over
over-behind [] x row i j h e = refl
over-behind (d ∷ t) x row zero j h e = absurd (omega arith)
over-behind (d ∷ t) x row (suc i) j h e = ground (arith, over-behind t (x + 1) row i j)

same : (n : ℕ) → (n == n) ≡ true
same n = ground arith

abbrev rows : Terminal
rows = record {
  Screen = ℕ → ℕ → ℕ;
  width = 80;
  cell = λ s y x. s y x;
  print = λ s y x t y' j. if y' == y then over t x (s y) j else s y' j;
  print_in = λ s y x t i c plain fits e. rw (same y) (over-in t x (s y) i (x + i) c refl e);
  print_behind = λ s y x t i plain fits h. rw (same y) (over-behind t x (s y) i (x + i) refl h);
  box = λ s. s;
  wborder = λ s y x. if y == 0 then b' ' else s y x;
  wborder_top = λ s x h. refl;
}

abbrev before : ℕ → ℕ → ℕ
before y x = b'.'

response_example :
    let text = codes "Reconnected!" in
    (13 < 4 + 10
      → ((j c : ℕ) → get_elem? text j ≡ some c → rows.cell (shown rows 10 13 text before) 0 j ≡ c)
        × ((j : ℕ)
            → length text ≤ j
            → j < 80
            → rows.cell (shown rows 10 13 text before) 0 j ≡ b' '))
    × (4 + 10 ≤ 13 → (j : ℕ) → j < 80 → rows.cell (shown rows 10 13 text before) 0 j ≡ b' ')
response_example = response_lem rows before 10 13 (codes "Reconnected!") (omega arith) (omega arith)
