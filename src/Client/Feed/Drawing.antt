-- ===== src/Client/Feed/Drawing.antt =====
-- The rows that NotificationList::draw prints for a notification.
use twitter_clone.Prelude.{
  ℕ, ◌<◌, ◌≡◌, refl, sym, ap, ◌∙◌, Bool-cases, inl, inr, List, ◌∷◌, ◌++◌, Option, none, some, arith,
  ltb, if◌then◌else◌, length, take, take_all, All, Bytes, codes,
}
use twitter_clone.Text.{split_by_length}
use twitter_clone.Text.Lines.{concat, Fits, split_by_length_lem}
use twitter_clone.Client.{Notification}
use twitter_clone.Client.Feed.{max_size}

-- The message, cut at MAX_SIZE.
unfoldable shown_message : Notification → Bytes
shown_message n = if ltb max_size (length n.message) then take max_size n.message else n.message

abbrev below : Bytes → Option (List Bytes) → Option (List Bytes)
below header none = none
below header (some lines) = some (header ∷ lines)

-- The header, and the message in lines of the width; none where the loop does not end.
unfoldable draw : ℕ → Notification → Option (List Bytes)
draw width n =
    below (n.sender ++ (codes "  --  " ++ n.date)) (split_by_length width (shown_message n))

shown_message-take : (n : Notification) → shown_message n ≡ take 128 n.message
unfolding shown_message
shown_message-take n = elim (Bool-cases (ltb max_size (length n.message))) [
  | inl e ↦ rw e refl
  | inr e ↦ rw e (sym (take_all 128 n.message (ground (arith, e))))
]

-- For a positive width, the sender and the date are printed, and below them lines that are no longer than
-- the width and spell the first 128 bytes of the message.
draw_lem :
    (width : ℕ) (n : Notification)
    → 0 < width
    → (lines : List Bytes) × (draw width n
        ≡ some ((n.sender ++ (codes "  --  " ++ n.date)) ∷ lines))
      × (concat lines ≡ take 128 n.message)
      × All (Fits width) lines
unfolding draw
draw_lem width n positive =
    let (lines, ends, spells, fit) = split_by_length_lem width (shown_message n) positive in
    (
      lines,
      ap (below (n.sender ++ (codes "  --  " ++ n.date))) ends,
      spells ∙ shown_message-take n,
      fit,
    )
