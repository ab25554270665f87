-- ===== src/Mqtt/Broker/Deliver.antt =====
-- What the broker sends for a message that is published.
use evmongoose.Common.{
  arith, ℕ, ◌^◌, ◌<◌, ◌⊎◌, length, ◌≡◌, ◌≢◌, refl, sym, ap, ◌∙◌, Bool, true, false, ◌&&◌, none,
  some, List, [], ◌∷◌, ◌++◌, ◌==◌, ==_iff, if◌then◌else◌, All, Bool-cases, Option-cases, inl, inr,
  append-nil, append_assoc,
}
use evmongoose.Mqtt.{text, Message}
use evmongoose.Mqtt.Send.{publish}
use evmongoose.Mqtt.Queue.{packet, publish_body, publish-send_mbuf}
use evmongoose.Mqtt.Broker.{
  Subscription, Session, Broker, set_conn, match_topic_expression, any_match, printed, publish_to,
  handle_publish,
}

-- The packet of a message.
abbrev pub publication : Message → List ℕ
publication msg = packet 3 0 (publish_body (printed (text msg.topic)) 0 0 (text msg.payload))

-- The packets for a connection: one for each of its sessions that has a subscription that matches.
abbrev pub packets_for : Message → ℕ → List Session → List ℕ
packets_for msg c [] = []
packets_for msg c (s ∷ sessions) =
    (elim (any_match s.subscriptions msg.topic) [
      | none ↦ []
      | some m ↦ if m && s.nc == c then publication msg else []
    ])
    ++ packets_for msg c sessions

abbrev IsReadable : Message → Session → Type 0
IsReadable msg s = any_match s.subscriptions msg.topic ≢ none

-- What a packet has room for.
abbrev pub IsSendable : Message → Type 0
IsSendable msg = (length (printed (text msg.topic)) < 2 ^ 31) × (length (text msg.payload) < 2 ^ 31)

send_if-queue :
    (now : ℕ) (msg : Message) (m : Bool) (d c : ℕ) (b : Broker)
    → IsSendable msg
    → ((if m
          then set_conn d
              (publish now (printed (text msg.topic)) 0 0 (text msg.payload) (b.conns d))
              b
          else b).conns
        c).send_mbuf
      ≡ (b.conns c).send_mbuf ++ (if m && d == c then publication msg else [])
send_if-queue now msg false d c b short = sym (append-nil (b.conns c).send_mbuf)
send_if-queue now msg true d c b short = elim (Bool-cases (d == c)) [
  | inl x ↦
      let is : d ≡ c = (==_iff d c).0 x in
      let back : (c == d) ≡ true = ground (arith, is) in
      rw back (
        rw x (
          publish-send_mbuf now (printed (text msg.topic)) 0 0 (text msg.payload) (b.conns d)
            short.0 short.1
          ∙ ap (λ k. (b.conns k).send_mbuf ++ publication msg) is))
  | inr x ↦
      let back : (c == d) ≡ false = ground (arith, x) in
      rw back (rw x (sym (append-nil (b.conns c).send_mbuf)))
]

publish_to-packets_for :
    (now : ℕ) (msg : Message) (sessions : List Session) (b : Broker)
    → IsSendable msg
    → All (IsReadable msg) sessions
    → (b' : Broker) × (publish_to now msg sessions b ≡ some b')
      × ((c : ℕ) → (b'.conns c).send_mbuf ≡ (b.conns c).send_mbuf ++ packets_for msg c sessions)
unfolding publish_to
publish_to-packets_for now msg [] b short h = (b, refl, λ c. sym (append-nil (b.conns c).send_mbuf))
publish_to-packets_for now msg (s ∷ sessions) b short (r, h) =
    elim (Option-cases (any_match s.subscriptions msg.topic)) [
      | inl x ↦ absurd (r x)
      | inr (m, x) ↦
          let sent = publish now (printed (text msg.topic)) 0 0 (text msg.payload) (b.conns s.nc) in
          let b1 = if m then set_conn s.nc sent b else b in
          let (b', done, queues) = publish_to-packets_for now msg sessions b1 short h in
          (
            b',
            rw (x, publish_to) done,
            λ c. rw x (
                queues c
                ∙ ap (λ t. t ++ packets_for msg c sessions) (send_if-queue now msg m s.nc c b short)
                ∙ append_assoc (b.conns c).send_mbuf
                    (if m && s.nc == c then publication msg else []) (packets_for msg c sessions)),
          )
    ]

-- A subscription has its NUL, and the comparison with the topic comes out so, inside of what has been
-- received.
abbrev pub Compares : Message → Bool → Subscription → Type 0
Compares msg b s =
    (exp : List ℕ) × (s.topic ≡ some exp) × (match_topic_expression exp msg.topic ≡ some b)

abbrev pub SomeMatch : Message → List Subscription → Type 0
SomeMatch msg [] = ⊥
SomeMatch msg (s ∷ subscriptions) = Compares msg true s ⊎ SomeMatch msg subscriptions

abbrev pub IsComparable : Message → Subscription → Type 0
IsComparable msg s = (b : Bool) × Compares msg b s

abbrev pub AreComparable : Message → Session → Type 0
AreComparable msg s = All (IsComparable msg) s.subscriptions

-- The packets for a connection: one for each session of it with a subscription that matches, wherever
-- that stands, and none for another connection or for a session with no such subscription.
pub data Sends (msg : Message) (c : ℕ) : List Session → List ℕ → Type 0 where
  nobody : Sends msg c [] []
  subscriber :
      {s : Session} {sessions : List Session} {out : List ℕ}
      → s.nc ≡ c
      → SomeMatch msg s.subscriptions
      → Sends msg c sessions out
      → Sends msg c (s ∷ sessions) (publication msg ++ out)
  stranger :
      {s : Session} {sessions : List Session} {out : List ℕ}
      → s.nc ≢ c
      → Sends msg c sessions out
      → Sends msg c (s ∷ sessions) out
  uninterested :
      {s : Session} {sessions : List Session} {out : List ℕ}
      → All (Compares msg false) s.subscriptions
      → Sends msg c sessions out
      → Sends msg c (s ∷ sessions) out

any_match_cases :
    (msg : Message) (subscriptions : List Subscription)
    → All (IsComparable msg) subscriptions
    → ((any_match subscriptions msg.topic ≡ some true) × SomeMatch msg subscriptions)
      ⊎ ((any_match subscriptions msg.topic ≡ some false) × All (Compares msg false) subscriptions)
unfolding any_match
any_match_cases msg [] h = inr (refl, tt)
any_match_cases msg (s ∷ subscriptions) ((true, (exp, e, m)), h) =
    inl (rw e (rw m refl), inl (exp, e, m))
any_match_cases msg (s ∷ subscriptions) ((false, (exp, e, m)), h) =
    elim (any_match_cases msg subscriptions h) [
      | inl (found, x) ↦ inl (rw e (rw m found), inr x)
      | inr (missed, x) ↦ inr (rw e (rw m missed), ((exp, e, m), x))
    ]

comparable-IsReadable :
    (msg : Message) (sessions : List Session)
    → All (AreComparable msg) sessions
    → All (IsReadable msg) sessions
comparable-IsReadable msg [] h = tt
comparable-IsReadable msg (s ∷ sessions) (r, h) = (
  elim (any_match_cases msg s.subscriptions r) [
    | inl (e, _) ↦ λ n. absurd (cc (e, n))
    | inr (e, _) ↦ λ n. absurd (cc (e, n))
  ],
  comparable-IsReadable msg sessions h,
)

packets_for-Sends :
    (msg : Message) (c : ℕ) (sessions : List Session)
    → All (AreComparable msg) sessions
    → Sends msg c sessions (packets_for msg c sessions)
packets_for-Sends msg c [] h = nobody
packets_for-Sends msg c (s ∷ sessions) (r, h) =
    let later = packets_for-Sends msg c sessions h in
    elim (any_match_cases msg s.subscriptions r) [
      | inl (e, m) ↦ elim (Bool-cases (s.nc == c)) [
        | inl x ↦ rw e (rw x (subscriber ((==_iff s.nc c).0 x) m later))
        | inr x ↦ rw e (rw x (stranger (ground (arith, x)) later))
      ]
      | inr (e, m) ↦ rw e (uninterested m later)
    ]

-- What is sent for a message that is published: each connection's output grows by one PUBLISH packet,
-- of the topic and the payload, for each of its sessions with a subscription that
-- `mg_mqtt_match_topic_expression` accepts, wherever that stands, in the order of the sessions, and by
-- nothing else. Every subscription has its NUL and is compared inside of what has been received; topic
-- and payload are shorter than 2 ^ 31.
pub handle_publish-Sends :
    (now : ℕ) (msg : Message) (b : Broker)
    → IsSendable msg
    → All (AreComparable msg) b.sessions
    → (b' : Broker) × (handle_publish now msg b ≡ some b')
      × ((c : ℕ)
          → (out : List ℕ) × Sends msg c b.sessions out
            × ((b'.conns c).send_mbuf ≡ (b.conns c).send_mbuf ++ out))
unfolding handle_publish
handle_publish-Sends now msg b short h =
    let (b', done, queues) =
      publish_to-packets_for now msg b.sessions b short (comparable-IsReadable msg b.sessions h) in
    (b', done, λ c. (packets_for msg c b.sessions, packets_for-Sends msg c b.sessions h, queues c))
