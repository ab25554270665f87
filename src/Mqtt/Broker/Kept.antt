-- ===== src/Mqtt/Broker/Kept.antt =====
-- The sessions of the broker at CONNECT and SUBSCRIBE.
use mathlib.Core.List.{map}
use mathlib.Core.Path.{subst}
use evmongoose.Common.{
  arith, ℕ, suc, ◌≡◌, refl, sym, ap, ◌∙◌, Bool, true, false, none, some, List, [], ◌∷◌, ◌++◌, ◌==◌,
  ==_iff, if◌then◌else◌, All, Bool-cases, Option-cases, inl, inr,
}
use evmongoose.Net.{Conn}
use evmongoose.Mqtt.{text, Message}
use evmongoose.Mqtt.Send.{publish}
use evmongoose.Mqtt.Parse.{collect_topics}
use evmongoose.Mqtt.Broker.{
  Session, Broker, update, set_conn, handle_connect, find_session, put_session, stored,
  handle_subscribe, any_match, printed, publish_to,
}
use evmongoose.Mqtt.Broker.Sessions.{
  IsNew, Distinct, find_session-All, put_session-All, put_session-Distinct,
}
use evmongoose.Mqtt.Broker.World.{System, IsOwned, IsSound}

pub map_All :
    {P Q : Session → Type 0} (ts : List Session) → ((t : Session) → P t → Q t) → All P ts → All Q ts
map_All [] f h = h
map_All (t ∷ ts) f (a, h) = (f t a, map_All ts f h)

abbrev SameSessions : Broker → Broker → Type 0
SameSessions b b' =
    (b'.sessions ≡ b.sessions) × (b'.has_listener ≡ b.has_listener) × (b'.user_data ≡ b.user_data)

send_if-SameSessions :
    (m : Bool) (c : ℕ) (nc : Conn) (b : Broker) → SameSessions b (if m then set_conn c nc b else b)
send_if-SameSessions true c nc b = (refl, refl, refl)
send_if-SameSessions false c nc b = (refl, refl, refl)

pub publish_to-SameSessions :
    (now : ℕ) (msg : Message) (sessions : List Session) (b b' : Broker)
    → publish_to now msg sessions b ≡ some b'
    → SameSessions b b'
unfolding publish_to
publish_to-SameSessions now msg [] b b' e =
    let is : b ≡ b' = cc e in
    (
      ap (λ x. x.sessions) (sym is),
      ap (λ x. x.has_listener) (sym is),
      ap (λ x. x.user_data) (sym is),
    )
publish_to-SameSessions now msg (s ∷ sessions) b b' e =
    elim (Option-cases (any_match s.subscriptions msg.topic)) [
      | inl x ↦ absurd (cc (rw (x, publish_to) at e))
      | inr (m, x) ↦
          let sent = publish now (printed (text msg.topic)) 0 0 (text msg.payload) (b.conns s.nc) in
          let b1 = if m then set_conn s.nc sent b else b in
          let later : publish_to now msg sessions b1 ≡ some b' = rw (x, publish_to) at e in
          let (l, h, u) = publish_to-SameSessions now msg sessions b1 b' later in
          let (l', h', u') = send_if-SameSessions m s.nc sent b in (l ∙ l', h ∙ h', u ∙ u')
    ]

-- Owned sessions are owned after an event that changes no owner.
IsOwned-after :
    (w : System) (b : Broker)
    → b.has_listener ≡ w.broker.has_listener
    → b.user_data ≡ w.broker.user_data
    → (t : Session) → IsOwned w t
    → IsOwned (record w { broker = b }) t
IsOwned-after w b h u t (o, l, d) = (o, ap (λ f. f t.nc) h ∙ l, ap (λ f. f t.nc) u ∙ d)

pub same-IsSound :
    (w : System) (b : Broker)
    → SameSessions w.broker b
    → IsSound w
    → IsSound (record w { broker = b })
same-IsSound w b (l, h, u) v = record {
  owned =
      subst (All (IsOwned (record w { broker = b }))) (sym l)
        (map_All w.broker.sessions (IsOwned-after w b h u) v.owned);
  distinct = subst Distinct (sym l) v.distinct;
}

pub subscribe-IsSound :
    (w : System) (now c : ℕ) (msg : Message) (b : Broker)
    → handle_subscribe now c msg w.broker ≡ some b
    → IsSound w
    → IsSound (record w { broker = b })
unfolding handle_subscribe
subscribe-IsSound w now c msg b e v = elim (Option-cases (w.broker.user_data c)) [
  | inl x ↦ absurd (ground (arith, e, x))
  | inr (s, x) ↦ elim (Option-cases (find_session s w.broker.sessions)) [
    | inl y ↦ absurd (ground (arith, e, x, y))
    | inr (ss, y) ↦ elim (Option-cases (collect_topics (suc msg.payload.len) msg.payload 0)) [
      | inl z ↦ absurd (ground (arith, e, x, y, z))
      | inr (topics, z) ↦
          let grown = record ss { subscriptions = ss.subscriptions ++ map stored topics } in
          let own = find_session-All (IsOwned w) s w.broker.sessions ss y v.owned in
          let is : (b.sessions ≡ put_session grown w.broker.sessions)
              × (b.has_listener ≡ w.broker.has_listener)
              × (b.user_data ≡ w.broker.user_data) =
            (ground (arith, e, x, y, z), ground (arith, e, x, y, z), ground (arith, e, x, y, z)) in
          record {
            owned = subst (All (IsOwned (record w { broker = b }))) (sym is.0) (
                map_All (put_session grown w.broker.sessions) (IsOwned-after w b is.1 is.2)
                  (put_session-All (IsOwned w) grown w.broker.sessions own v.owned));
            distinct =
                subst Distinct (sym is.0) (put_session-Distinct grown w.broker.sessions v.distinct);
          }
    ]
  ]
]

pub connect-IsSound :
    (w : System) (now c s : ℕ)
    → w.is_open c ≡ true
    → w.broker.has_listener c ≡ true
    → w.broker.user_data c ≡ none
    → IsNew s w.broker.sessions
    → IsSound w
    → IsSound (record w { broker = handle_connect now (some s) c w.broker })
unfolding handle_connect
connect-IsSound w now c s live listens free new v = record {
  owned = ((live, listens, at_self), map_All w.broker.sessions others v.owned);
  distinct = (new, v.distinct);
}
  where
    at_self : update w.broker.user_data c (some s) c ≡ some s
    at_self = ground arith

    others :
        (t : Session)
        → IsOwned w t
        → IsOwned (record w { broker = handle_connect now (some s) c w.broker }) t
    others t (o, l, u) = (
      o,
      l,
      elim (Bool-cases (t.nc == c)) [
        | inl x ↦
            let is : t.nc ≡ c = (==_iff t.nc c).0 x in
            absurd (cc (sym u ∙ ap w.broker.user_data is ∙ free))
        | inr x ↦ rw x u
      ],
    )
