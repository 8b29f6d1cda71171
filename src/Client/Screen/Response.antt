-- ===== src/Client/Screen/Response.antt =====
-- What the window for responses shows, as src/client/app_client.cpp makes it.
use twitter_clone.Prelude.{
  ℕ, zero, suc, ◌+◌, ◌≤◌, ◌<◌, ◌≡◌, refl, subst, ap, ◌∙◌, arith, true, false, [], ◌∷◌, some, ltb,
  lt→ltb, ◌⊎◌, Bool-cases, inl, inr, is_empty, length, get_elem?, All, Bytes,
}
use twitter_clone.Client.Screen.{
  IsPlain, Terminal, TimeoutLabel, set_text, set_timeout, new_timeout_label, spaces,
  draw_timeout_label, draw_window, draw_widgets, response_window, new_window, set_show_border,
  add_widget,
}

length-spaces : (n : ℕ) → length (spaces n) ≡ n
unfolding spaces
length-spaces zero = refl
length-spaces (suc n) = omega (arith, length-spaces n)

spaces-All : (n : ℕ) → All IsPlain (spaces n)
unfolding spaces
spaces-All zero = tt
spaces-All (suc n) = (omega arith, spaces-All n)

spaces-at : (n i : ℕ) → i < n → get_elem? (spaces n) i ≡ some b' '
unfolding spaces
spaces-at zero i h = absurd (omega arith)
spaces-at (suc n) zero h = refl
spaces-at (suc n) (suc i) h = spaces-at n i (omega arith)

some_byte : (t : Bytes) (j c : ℕ) → get_elem? t j ≡ some c → is_empty t ≡ false
some_byte [] j c e = absurd cc
some_byte (x ∷ xs) j c e = refl

before_or_after : (a b : ℕ) → (a < b) ⊎ (b ≤ a)
before_or_after a b = elim (Bool-cases (ltb a b)) [
  | inl e ↦ inl (ground arith)
  | inr e ↦ inr (ground arith)
]

module _ (k : Terminal) where
  open k use {Screen, cell, print, wborder, wborder_top}

  abbrev label : ℕ → Bytes → TimeoutLabel
  label at text = record {
    text = text;
    timeout_seconds = 4;
    init = at;
    position = record { x = 0; y = 0 };
  }

  column : (j : ℕ) → 0 + j ≡ j
  column j = omega arith

  first_in :
      (s : Screen) (t : Bytes) (j c : ℕ)
      → All IsPlain t
      → length t ≤ k.width
      → get_elem? t j ≡ some c
      → cell (print s 0 0 t) 0 j ≡ c
  first_in s t j c plain fits e =
      subst (λ i. cell (print s 0 0 t) 0 i ≡ c) (column j)
        (k.print_in s 0 0 t j c plain (omega (arith, fits)) e)

  first_behind :
      (s : Screen) (t : Bytes) (j : ℕ)
      → All IsPlain t
      → length t ≤ k.width
      → length t ≤ j
      → cell (print s 0 0 t) 0 j ≡ cell s 0 j
  first_behind s t j plain fits behind =
      subst (λ i. cell (print s 0 0 t) 0 i ≡ cell s 0 i) (column j)
        (k.print_behind s 0 0 t j plain (omega (arith, fits)) behind)

  -- The window at the time `now`, for a text set at the time `at`.
  abbrev pub shown : ℕ → ℕ → Bytes → Screen → Screen
  shown at now text s = (draw_window k now (response_window k s at text)).window

  shown_lem :
      (at now : ℕ) (text : Bytes) (s : Screen)
      → shown at now text s ≡ draw_timeout_label k (label at text) now (wborder s)
  unfolding response_window draw_window draw_widgets add_widget set_show_border new_window set_text
      set_timeout new_timeout_label
  shown_lem at now text s = refl

  soon_lem :
      (at now : ℕ) (t : Bytes) (s : Screen)
      → now < 4 + at
      → is_empty t ≡ false
      → draw_timeout_label k (label at t) now s ≡ print s 0 0 t
  unfolding draw_timeout_label
  soon_lem at now t s h e = rw (e, lt→ltb now (4 + at) h) refl

  late_lem :
      (at now : ℕ) (t : Bytes) (s : Screen)
      → 4 + at ≤ now
      → is_empty t ≡ false
      → draw_timeout_label k (label at t) now s ≡ print s 0 0 (spaces (length t))
  unfolding draw_timeout_label
  late_lem at now t s h e = let late : ltb now (4 + at) ≡ false = ground arith in rw (e, late) refl

  -- An empty text prints nothing.
  empty_lem :
      (at now : ℕ) (t : Bytes) (s : Screen)
      → is_empty t ≡ true
      → draw_timeout_label k (label at t) now s ≡ s
  unfolding draw_timeout_label
  empty_lem at now t s e = rw e refl

  module _ (s : Screen) (at now : ℕ) (text : Bytes) where
    drawn :
        (s' : Screen) (j c : ℕ)
        → draw_timeout_label k (label at text) now (wborder s) ≡ s'
        → cell s' 0 j ≡ c
        → cell (shown at now text s) 0 j ≡ c
    drawn s' j c e h = ap (λ w. cell w 0 j) (shown_lem at now text s ∙ e) ∙ h

    in_text :
        All IsPlain text
        → length text ≤ k.width
        → now < 4 + at
        → (j c : ℕ) → get_elem? text j ≡ some c
        → cell (shown at now text s) 0 j ≡ c
    in_text plain fits soon j c e =
        drawn (print (wborder s) 0 0 text) j c
          (soon_lem at now text (wborder s) soon (some_byte text j c e))
          (first_in (wborder s) text j c plain fits e)

    blanks_fit : length text ≤ k.width → length (spaces (length text)) ≤ k.width
    blanks_fit fits = omega (arith, length-spaces (length text), fits)

    behind_blanks :
        length text ≤ k.width
        → is_empty text ≡ false
        → 4 + at ≤ now
        → (j : ℕ) → length text ≤ j
        → j < k.width
        → cell (shown at now text s) 0 j ≡ b' '
    behind_blanks fits e late j behind h =
        let blanks = spaces (length text) in
        drawn (print (wborder s) 0 0 blanks) j b' ' (late_lem at now text (wborder s) late e) (
          first_behind (wborder s) blanks j (spaces-All (length text)) (blanks_fit fits)
            (omega (arith, length-spaces (length text), behind))
          ∙ wborder_top s j h)

    behind_text :
        All IsPlain text
        → length text ≤ k.width
        → (j : ℕ) → length text ≤ j
        → j < k.width
        → cell (shown at now text s) 0 j ≡ b' '
    behind_text plain fits j behind h = elim (Bool-cases (is_empty text)) [
      | inl e ↦ drawn (wborder s) j b' ' (empty_lem at now text (wborder s) e) (wborder_top s j h)
      | inr e ↦ elim (before_or_after now (4 + at)) [
        | inl soon ↦
            drawn (print (wborder s) 0 0 text) j b' ' (soon_lem at now text (wborder s) soon e)
              (first_behind (wborder s) text j plain fits behind ∙ wborder_top s j h)
        | inr late ↦ behind_blanks fits e late j behind h
      ]
    ]

    afterwards :
        length text ≤ k.width
        → 4 + at ≤ now
        → (j : ℕ) → j < k.width
        → cell (shown at now text s) 0 j ≡ b' '
    afterwards fits late j h = elim (Bool-cases (is_empty text)) [
      | inl e ↦ drawn (wborder s) j b' ' (empty_lem at now text (wborder s) e) (wborder_top s j h)
      | inr e ↦ elim (before_or_after j (length text)) [
        | inl inside ↦
            let blanks = spaces (length text) in
            drawn (print (wborder s) 0 0 blanks) j b' ' (late_lem at now text (wborder s) late e) (
              first_in (wborder s) blanks j b' ' (spaces-All (length text)) (blanks_fit fits)
                (spaces-at (length text) j inside))
        | inr behind ↦ behind_blanks fits e late j behind h
      ]
    ]

    -- Where the window for responses is drawn with a text that was set: its first row shows the
    -- text until four seconds are over, with blanks behind it, and only blanks afterwards, whatever
    -- an earlier text left in the window. The text consists of printable bytes other than the
    -- percent sign and is not longer than the row.
    pub response_lem :
        All IsPlain text
        → length text ≤ k.width
        → (now < 4 + at
            → ((j c : ℕ) → get_elem? text j ≡ some c → cell (shown at now text s) 0 j ≡ c)
              × ((j : ℕ) → length text ≤ j → j < k.width → cell (shown at now text s) 0 j ≡ b' '))
          × (4 + at ≤ now → (j : ℕ) → j < k.width → cell (shown at now text s) 0 j ≡ b' ')
    response_lem plain fits =
        (λ soon. (in_text plain fits soon, behind_text plain fits), λ late. afterwards fits late)
