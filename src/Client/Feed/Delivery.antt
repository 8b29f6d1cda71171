-- ===== src/Client/Feed/Delivery.antt =====
-- What the server sends stands in the feed.
use twitter_clone.Prelude.{ℕ, ◌+◌, ◌<◌, ◌≡◌, refl, ap, ◌∙◌, List, [], ◌∷◌, some, length, Bytes}
use twitter_clone.Text.{size_mod}
use twitter_clone.Packet.{Packet, c_str}
use twitter_clone.Packet.Types.{data_type}
use twitter_clone.Notification as Server
use twitter_clone.Client.{Notification, deserialize}
use twitter_clone.Client.Reading.{IsReadable, header, deserialize-serialize_notification}
use twitter_clone.Client.Feed.{Consumer, add_item, add_read, consume_type}

-- The notification as the client shows it.
abbrev pub shown : (ℕ → Bytes) → Server.Notification → Notification
shown beautify_time n = record {
  id = n.id;
  sender = n.username;
  date = beautify_time n.timestamp;
  message = c_str n.message;
}

-- A packet that carries a notification which a client can read.
abbrev pub Sends : Packet → Server.Notification → Type 0
Sends p n =
    (p.type ≡ data_type)
    × (p.payload ≡ Server.serialize n)
    × IsReadable n
    × (length (header n) + 2 < size_mod)

abbrev pub SendsAll : List Packet → List Server.Notification → Type 0
SendsAll [] [] = Unit
SendsAll [] (n ∷ ns) = ⊥
SendsAll (p ∷ ps) [] = ⊥
SendsAll (p ∷ ps) (n ∷ ns) = Sends p n × SendsAll ps ns

abbrev pub reverse_onto {ℓ} : {A : Type ℓ} → List A → List A → List A
reverse_onto [] ys = ys
reverse_onto (x ∷ xs) ys = reverse_onto xs (x ∷ ys)

module _ (beautify_time : ℕ → Bytes) where
  abbrev pub with_items : Consumer → List Notification → Consumer
  with_items c items = record c { feed = record c.feed { items = items } }

  pub consume-one :
      (c : Consumer) (p : Packet) (n : Server.Notification)
      → Sends p n
      → consume_type beautify_time c p.type p.payload
        ≡ some (with_items c (shown beautify_time n ∷ c.feed.items))
  consume-one c p n (t, payload, r, fits) =
      ap (λ k. consume_type beautify_time c k p.payload) t
      ∙ ap (λ s. add_read beautify_time c (deserialize beautify_time s)) payload
      ∙ ap (add_read beautify_time c) (deserialize-serialize_notification n beautify_time r fits)
      ∙ unfold add_item in refl
