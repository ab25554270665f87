-- ===== src/Mqtt/Broker/Live.antt =====
-- The sessions of the broker refer to connections that are alive.
use mathlib.Core.Path.{subst}
use evmongoose.Common.{
  arith, ℕ, ◌≡◌, ◌≢◌, refl, sym, ap, ◌∙◌, true, false, Option, none, some, ◌==◌, ==_iff, Bool-cases,
  inl, inr,
}
use evmongoose.Net.{Conn}
use evmongoose.Mqtt.{Message}
use evmongoose.Mqtt.Handler.{packet, set_protocol_mqtt}
use evmongoose.Mqtt.Broker.{
  Session, Broker, update, set_conn, handle_connect, handle_subscribe, publish_to, handle_publish,
  close_session, close_own, mqtt_broker,
}
use evmongoose.Mqtt.Broker.Sessions.{close_session-All, close_session-Distinct}
use evmongoose.Mqtt.Broker.World.{
  System, IsOwned, IsSound, Step, Reach, accepts, connects, connects_without_memory, sends, closes,
  here, next,
}
use evmongoose.Mqtt.Broker.Kept.{
  map_All, publish_to-SameSessions, same-IsSound, subscribe-IsSound, connect-IsSound,
}

-- Another connection's entry stays where one is changed.
update_other {ℓ} : {A : Type ℓ} (f : ℕ → A) (c : ℕ) (v : A) (n : ℕ) → n ≢ c → update f c v n ≡ f n
update_other f c v n h = elim (Bool-cases (n == c)) [
  | inl x ↦ absurd (h ((==_iff n c).0 x))
  | inr x ↦ rw x refl
]

accept-IsSound :
    (w : System) (c : ℕ) (nc : Conn)
    → w.is_open c ≡ false
    → IsSound w
    → IsSound (record {
      broker = set_conn c nc (record w.broker { user_data = update w.broker.user_data c none });
      is_open = update w.is_open c true;
    })
accept-IsSound w c nc closed v = record {
  owned = map_All w.broker.sessions others v.owned;
  distinct = v.distinct;
}
  where
    others :
        (t : Session)
        → IsOwned w t
        → (update w.is_open c true t.nc ≡ true)
          × (w.broker.has_listener t.nc ≡ true)
          × (update w.broker.user_data c none t.nc ≡ some t.id)
    others t (o, l, u) =
        let apart : t.nc ≢ c = λ e. cc (sym o ∙ ap w.is_open e ∙ closed) in
        (
          update_other w.is_open c true t.nc apart ∙ o,
          l,
          update_other w.broker.user_data c none t.nc apart ∙ u,
        )

close-IsSound :
    (w : System) (c : ℕ) (o : Option ℕ)
    → w.broker.user_data c ≡ o
    → IsSound w
    → IsSound (record { broker = close_own o w.broker; is_open = update w.is_open c false })
close-IsSound w c none e v = record {
  owned = map_All w.broker.sessions others v.owned;
  distinct = v.distinct;
}
  where
    others :
        (t : Session)
        → IsOwned w t
        → (update w.is_open c false t.nc ≡ true)
          × (w.broker.has_listener t.nc ≡ true)
          × (w.broker.user_data t.nc ≡ some t.id)
    others t (o, l, u) =
        let apart : t.nc ≢ c = λ x. cc (sym u ∙ ap w.broker.user_data x ∙ e) in
        (update_other w.is_open c false t.nc apart ∙ o, l, u)
close-IsSound w c (some s) e v = record {
  owned =
      map_All (close_session s w.broker.sessions) others
        (close_session-All (IsOwned w) s w.broker.sessions v.distinct v.owned);
  distinct = close_session-Distinct s w.broker.sessions v.distinct;
}
  where
    others :
        (t : Session)
        → IsOwned w t × (t.id ≢ s)
        → (update w.is_open c false t.nc ≡ true)
          × (w.broker.has_listener t.nc ≡ true)
          × (w.broker.user_data t.nc ≡ some t.id)
    others t ((o, l, u), n) =
        let apart : t.nc ≢ c = λ x. n (cc (sym u ∙ ap w.broker.user_data x ∙ e)) in
        (update_other w.is_open c false t.nc apart ∙ o, l, u)

send-IsSound :
    (w : System) (now c n : ℕ) (memory : Option ℕ) (msg : Message) (b : Broker)
    → n ≢ 201
    → mqtt_broker now memory c (packet n msg) w.broker ≡ some b
    → IsSound w
    → IsSound (record w { broker = b })
unfolding mqtt_broker handle_publish
send-IsSound w now c n memory msg b other e v = elim (Bool-cases (n == 201)) [
  | inl x ↦ absurd (other ((==_iff n 201).0 x))
  | inr x ↦ elim (Bool-cases (n == 208)) [
    | inl y ↦
        let sent : handle_subscribe now c msg w.broker ≡ some b = ground (arith, e, x, y) in
        subscribe-IsSound w now c msg b sent v
    | inr y ↦ elim (Bool-cases (n == 203)) [
      | inl z ↦
          let sent : publish_to now msg w.broker.sessions w.broker ≡ some b =
            ground (arith, e, x, y, z) in
          same-IsSound w b (publish_to-SameSessions now msg w.broker.sessions w.broker b sent) v
      | inr z ↦
          let nothing : some w.broker ≡ some b = ground (arith, e, x, y, z) in
          let is : w.broker ≡ b = cc nothing in subst (λ k. IsSound (record w { broker = k })) is v
    ]
  ]
]

-- Every step keeps the sessions sound.
Step-IsSound : {v w : System} → Step v w → IsSound v → IsSound w
unfolding mqtt_broker handle_connect
Step-IsSound (accepts w now c memory b closed listens e) v =
    subst (λ x. IsSound (record { broker = x; is_open = update w.is_open c true })) (cc e)
      (accept-IsSound w c (set_protocol_mqtt (w.broker.conns c)) closed v)
Step-IsSound (connects w now c s msg b live listens free new e) v =
    subst (λ x. IsSound (record w { broker = x })) (cc e)
      (connect-IsSound w now c s live listens free new v)
Step-IsSound (connects_without_memory w now c msg b e) v =
    subst (λ x. IsSound (record w { broker = x })) (cc e)
      (same-IsSound w (handle_connect now none c w.broker) (refl, refl, refl) v)
Step-IsSound (sends w now c n memory msg b other e) v =
    send-IsSound w now c n memory msg b other e v
Step-IsSound (closes w now c memory b listens e) v =
    let closed : some (close_own (w.broker.user_data c) w.broker) ≡ some b = rw listens at e in
    subst (λ x. IsSound (record { broker = x; is_open = update w.is_open c false })) (cc closed)
      (close-IsSound w c (w.broker.user_data c) refl v)

-- Through any accepted connections, packets and closings that the broker handles without leaving its
-- memory, where each client sends CONNECT at most once while it is connected, every session of the broker
-- belongs to a connection that is open, and that has the session as its user data.
pub Reach-IsSound : {v w : System} → IsSound v → Reach v w → IsSound w
Reach-IsSound h here = h
Reach-IsSound h (next r s) = Step-IsSound s (Reach-IsSound h r)
