-- ===== src/Client/Feed/Scrolling.antt =====
-- Scrolling through the feed.
use twitter_clone.Prelude.{
  ℕ, ◌+◌, ◌-◌, ◌%◌, ◌^◌, ◌≤◌, ◌<◌, ◌≡◌, true, List, [], ◌∷◌, arith, length, length-drop,
  length-take, drop, ltb, ltb→lt, Bool-cases, inl, inr,
}
use twitter_clone.Client.{Notification}
use twitter_clone.Client.Feed.{
  NotificationList, add_item, show_next, show_previous, items_per_page, lines_per_item, page,
}

-- What happens to a list: a notification comes, or a key is pressed.
pub data Event : Type 0 where
  arrives : Notification → Event
  key_down key_up : Event

unfoldable pub on : NotificationList → Event → NotificationList
on l (arrives n) = add_item n l
on l key_down = show_next l
on l key_up = show_previous l

unfoldable pub on_all : NotificationList → List Event → NotificationList
on_all l [] = l
on_all l (e ∷ es) = on_all (on l e) es

-- At least a page of notifications, and the one that is shown first is a page or more before the end.
pub record InRange (l : NotificationList) : Type 0 where
  pub whole_page : l.showing_begin + items_per_page l ≤ length l.items

next_fits :
    (b n k : ℕ)
    → b + k ≤ n
    → n < 2 ^ 64
    → ltb b ((n + 2 ^ 64 - k) % 2 ^ 64) ≡ true
    → (b + 1) % 2 ^ 64 + k ≤ n
next_fits b n k h fits e = omega (arith, ltb→lt b ((n + 2 ^ 64 - k) % 2 ^ 64) e, h, fits)

show_next-InRange :
    (l : NotificationList) → length l.items < 2 ^ 64 → InRange l → InRange (show_next l)
unfolding show_next
show_next-InRange l fits r =
    elim (Bool-cases
      (ltb l.showing_begin ((length l.items + 2 ^ 64 - items_per_page l) % 2 ^ 64))) [
        | inl e ↦ rw e (record {
          whole_page =
              unfold items_per_page lines_per_item in
              next_fits l.showing_begin (length l.items) (items_per_page l) r.whole_page fits e;
        })
        | inr e ↦ rw e r
      ]

show_previous-InRange : (l : NotificationList) → InRange l → InRange (show_previous l)
unfolding show_previous
show_previous-InRange l r = elim (Bool-cases (ltb 0 l.showing_begin)) [
  | inl e ↦
      rw e (record {
        whole_page = unfold items_per_page lines_per_item in omega (arith, r.whole_page);
      })
  | inr e ↦ rw e r
]

add_item-InRange : (l : NotificationList) (n : Notification) → InRange l → InRange (add_item n l)
unfolding add_item items_per_page lines_per_item
add_item-InRange l n r = record { whole_page = omega (arith, r.whole_page) }

on-InRange :
    (l : NotificationList) (e : Event) → length l.items < 2 ^ 64 → InRange l → InRange (on l e)
unfolding on
on-InRange l (arrives n) fits r = add_item-InRange l n r
on-InRange l key_down fits r = show_next-InRange l fits r
on-InRange l key_up fits r = show_previous-InRange l r

length-on : (l : NotificationList) (e : Event) → length (on l e).items ≤ length l.items + 1
unfolding on add_item show_next show_previous
length-on l (arrives n) = omega arith
length-on l key_down = ground arith
length-on l key_up = ground arith

on_all-InRange :
    (l : NotificationList) (es : List Event)
    → length l.items + length es < 2 ^ 64
    → InRange l
    → InRange (on_all l es)
unfolding on_all
on_all-InRange l [] fits r = r
on_all-InRange l (e ∷ es) fits r =
    on_all-InRange (on l e) es (omega (arith, length-on l e, fits))
      (on-InRange l e (omega (arith, fits)) r)

-- Where there is a page of notifications from the first that is shown, this stays so whatever arrives
-- and whichever key is pressed, and the page that is printed is always full. There are fewer than
-- 2 ^ 64 notifications.
pub on_all-page :
    (l : NotificationList) (es : List Event)
    → length l.items + length es < 2 ^ 64
    → InRange l
    → InRange (on_all l es) × (length (page (on_all l es)) ≡ items_per_page (on_all l es))
unfolding page
on_all-page l es fits r =
    let after = on_all l es in
    let r' = on_all-InRange l es fits r in
    (
      r',
      length-take (items_per_page after) (drop after.showing_begin after.items)
          (omega (arith, length-drop after.showing_begin after.items, r'.whole_page)),
    )
