-- ===== src/Replication/Update.antt =====
-- What the leader sends to the other replicas is what they then have.
use twitter_clone.Prelude.{
  ℕ, true, ◌≡◌, refl, ap, ◌∙◌, List, [], ◌∷◌, ◌++◌, map, some, Bool-cases, inl, inr, if◌then◌else◌,
}
use twitter_clone.Packet.{Packet, c_str}
use twitter_clone.Packet.Types.{update_notification}
use twitter_clone.Notification.Manager.{NotificationManager, new_manager}
use twitter_clone.Notification.Manager.Texts.{serialize}
use twitter_clone.Notification.Manager.Wire.{unsubscribed}
use twitter_clone.Notification.Manager.RoundTrip.{
  IsWritable, deserialize-serialize_manager, c_str-serialize_manager,
}
use twitter_clone.Notification.Manager as Notifications
use twitter_clone.Replication.{ReplicaInfo, is_not_me}
use twitter_clone.Replication.Manager.{
  ReplicaManager, Message, message, send_to_others, send_notification_update,
}
use twitter_clone.Replication.Handler.{ReplicaHandler, dispatch, handle, handle_notifications}

-- A replica's handler after it has taken the leader's notifications over.
abbrev pub following : ReplicaHandler → NotificationManager → ReplicaHandler
following h m = record h {
  notifications = record h.notifications {
    next_id = m.next_id;
    notifications = m.notifications;
    pending_queues = map unsubscribed m.pending_queues;
  };
}

-- A packet with what a message carries.
abbrev pub Carries : Packet → Message → Type 0
Carries p x = (p.type ≡ x.type) × (p.payload ≡ x.payload)

-- Whatever packet carries the message, the handler has the leader's notifications afterwards.
abbrev pub Updates : NotificationManager → Message → Type 0
Updates m x =
    (h : ReplicaHandler) (p : Packet)
    → h.spare_byte ≡ true
    → Carries p x
    → handle h p ≡ some (following h m)

handle-update :
    (m : NotificationManager) (h : ReplicaHandler)
    → h.spare_byte ≡ true
    → IsWritable m
    → handle_notifications h (c_str (serialize m)) ≡ some (following h m)
unfolding handle_notifications
handle-update m h spare w =
    rw
      (
        spare,
        c_str-serialize_manager m w,
        deserialize-serialize_manager m w (new_manager h.notifications.inboxes),
      )
      (unfold Notifications.update in refl)

Updates-message :
    (m : NotificationManager) (x : Message)
    → IsWritable m
    → x.type ≡ update_notification
    → x.payload ≡ c_str (serialize m)
    → Updates m x
unfolding handle
Updates-message m x w t e h p spare c =
    ap (λ k. dispatch h k p.payload) (c.0 ∙ t)
    ∙ ap (handle_notifications h) (c.1 ∙ e)
    ∙ handle-update m h spare w

-- The connections to the replicas with another address.
abbrev pub others : ReplicaInfo → List (ℕ × ReplicaInfo) → List ℕ
others me [] = []
others me ((conn, r) ∷ v) = let rest = others me v in if is_not_me me r then conn ∷ rest else rest

-- One message for each connection, and each of them updates a replica.
abbrev pub UpdateOn : NotificationManager → List ℕ → List Message → Type 0
UpdateOn m [] [] = Unit
UpdateOn m [] (x ∷ xs) = ⊥
UpdateOn m (c ∷ cs) [] = ⊥
UpdateOn m (c ∷ cs) (x ∷ xs) = (x.conn ≡ c) × Updates m x × UpdateOn m cs xs

send_to_others-UpdateOn :
    (m : NotificationManager) (me : ReplicaInfo) (v : List (ℕ × ReplicaInfo))
    → IsWritable m
    → UpdateOn m (others me v) (send_to_others me update_notification (serialize m) v)
unfolding send_to_others
send_to_others-UpdateOn m me [] w = tt
send_to_others-UpdateOn m me ((conn, r) ∷ v) w = elim (Bool-cases (is_not_me me r)) [
  | inl e ↦ rw e (
    refl,
    Updates-message m (message conn update_notification (serialize m)) w refl refl,
    send_to_others-UpdateOn m me v w,
  )
  | inr e ↦ rw e (send_to_others-UpdateOn m me v w)
]

-- An update of the leader's notifications goes once to every replica with another address, in
-- their order, and each that receives it then has the leader's next id, notifications and
-- pending entries, whatever it had before. Names are visible words and distinct, messages have
-- one line and no NUL, the next id is at most the greatest int, and the other numbers and
-- texts fit their types. The byte behind each buffer of a replica, where it writes a NUL, can
-- be written without harm.
pub send_notification_update_lem :
    (m : ReplicaManager)
    → IsWritable m.notifications
    → (sent : List Message) × ((send_notification_update m).sent ≡ m.sent ++ sent)
      × UpdateOn m.notifications (others m.info m.replicas_vector) sent
unfolding send_notification_update
send_notification_update_lem m w =
    (_, refl, send_to_others-UpdateOn m.notifications m.info m.replicas_vector w)
