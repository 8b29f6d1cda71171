-- ===== src/Replication/Takeover.antt =====
-- What a replica knows of the users, and the logins at a replica that has become the leader.
use twitter_clone.Prelude.{
  ℕ, ◌≡◌, refl, ap, ◌∙◌, List, [], ◌∷◌, ◌++◌, map, some, Bool-cases, inl, inr, All,
}
use twitter_clone.Prelude.Map.{Map}
use twitter_clone.Prelude.Distinct.{DistinctKeys}
use twitter_clone.Packet.{Packet}
use twitter_clone.Packet.Types.{update_profile}
use twitter_clone.Profile.{User}
use twitter_clone.Profile.Manager.{ProfileManager, serialize_users, start_session, start_new}
use twitter_clone.Profile.Manager
use twitter_clone.Profile.Manager.Wire.{
  IsSent, received, deserialize-serialize_users, c_str-serialize_users,
}
use twitter_clone.Replication.{ReplicaInfo, is_not_me}
use twitter_clone.Replication.Manager.{
  ReplicaManager, Message, message, send_to_others, send_profile_update,
}
use twitter_clone.Replication.Handler.{ReplicaHandler, dispatch, handle, handle_profile}
use twitter_clone.Replication.Update.{Carries, others}

-- Whatever packet carries the message, the handler has these users afterwards.
abbrev pub Brings : Map User → Message → Type 0
Brings users x =
    (h : ReplicaHandler) (p : Packet)
    → Carries p x
    → handle h p ≡ some (record h { profiles = record h.profiles { users = received users } })

pub Brings-message :
    (users : Map User) (conn : ℕ)
    → All IsSent users
    → DistinctKeys users
    → Brings users (message conn update_profile (serialize_users users))
unfolding handle handle_profile
Brings-message users conn w d h p c =
    ap (λ k. dispatch h k p.payload) c.0
    ∙ ap (handle_profile h) (c.1 ∙ c_str-serialize_users users w)
    ∙ rw (deserialize-serialize_users users w d) (unfold Manager.update in refl)

send_to_others-Brings :
    (users : Map User) (me : ReplicaInfo) (v : List (ℕ × ReplicaInfo))
    → All IsSent users
    → DistinctKeys users
    → (map (λ x. x.conn) (send_to_others me update_profile (serialize_users users) v) ≡ others me v)
      × All (Brings users) (send_to_others me update_profile (serialize_users users) v)
unfolding send_to_others
send_to_others-Brings users me [] w d = (refl, tt)
send_to_others-Brings users me ((conn, r) ∷ v) w d =
    let (conns, all) = send_to_others-Brings users me v w d in
    elim (Bool-cases (is_not_me me r)) [
      | inl e ↦ rw e (ap (λ cs. conn ∷ cs) conns, (Brings-message users conn w d, all))
      | inr e ↦ rw e (conns, all)
    ]

-- An update of the leader's users goes once to every replica with another address, in their
-- order, and each that receives it then has exactly the valid users of the leader, with their
-- ids, names and followers and without sessions, whatever it had before. Names are visible
-- words, those of followers without commas, and distinct, and numbers and texts fit their
-- types.
pub send_profile_update_lem :
    (m : ReplicaManager)
    → All IsSent m.profiles.users
    → DistinctKeys m.profiles.users
    → (sent : List Message) × ((send_profile_update m).sent ≡ m.sent ++ sent)
      × (map (λ x. x.conn) sent ≡ others m.info m.replicas_vector)
      × All (Brings m.profiles.users) sent
unfolding send_profile_update
send_profile_update_lem m w d =
    let (conns, all) = send_to_others-Brings m.profiles.users m.info m.replicas_vector w d in
    (_, refl, conns, all)
