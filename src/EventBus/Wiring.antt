-- ===== src/EventBus/Wiring.antt =====
-- What holds of a bus at all times, and that no step panics.
use sharm.Common.{
  ℕ, ◌≤◌, ◌<◌, ◌≡◌, refl, sym, ◌∙◌, ap, subst, ◌⊎◌, inl, inr, true, false, some, List, [], ◌∷◌,
  ◌++◌, Text, ◌==◌, nat_eq, text_eq, nat_beq_iff, Map, update, length, length-append, ltb, arith,
  Bool-cases, Option-cases,
}
use sharm.World.{Event}
use sharm.EventBus.{
  Channel, EventBus, buffer_size, or_nil, mem, send, send_all, publish, rest_of, receive,
}
use sharm.EventBus.Subscribers.{IsDistinct}

-- The channels of a media.
abbrev pub listed : EventBus → Text → List ℕ
listed eb media_id = or_nil (eb.subscribers media_id)

pub record IsOpen (eb : EventBus) (ch : ℕ) : Type 0 where
  pub channel : Channel
  pub made : eb.channels ch ≡ some channel
  pub is_open : channel.closed ≡ false

-- The channels of the map are open, each stands there once and for one media, and no buffer holds
-- more than it has room for.
pub record IsWired (eb : EventBus) : Type 0 where
  pub open_ch : (m : Text) (ch : ℕ) → mem ch (listed eb m) ≡ true → IsOpen eb ch
  pub only :
      (m n : Text) (ch : ℕ) → mem ch (listed eb m) ≡ true → mem ch (listed eb n) ≡ true → m ≡ n
  pub distinct : (m : Text) → IsDistinct (listed eb m)
  pub numbered : (ch : ℕ) (c : Channel) → eb.channels ch ≡ some c → ch < eb.next_channel
  pub room : (ch : ℕ) (c : Channel) → eb.channels ch ≡ some c → length c.buffer ≤ buffer_size

abbrev with_channel : EventBus → ℕ → Channel → EventBus
with_channel eb ch c = record eb { channels = update eb.channels ch c }

pub updated :
    (channels : Map ℕ Channel) (ch d : ℕ) (c e : Channel)
    → update channels ch c d ≡ some e
    → ((d ≡ ch) × (c ≡ e)) ⊎ (channels d ≡ some e)
updated channels ch d c e h = elim (Bool-cases (d == ch)) [
  | inl same ↦
      let now : update channels ch c d ≡ some c = rw same refl in
      inl ((nat_beq_iff d ch).0 same, cc (h, now))
  | inr other ↦ let old : update channels ch c d ≡ channels d = rw other refl in inr (sym old ∙ h)
]

length-rest_of : (es : List Event) → length es ≤ buffer_size → length (rest_of es) ≤ buffer_size
length-rest_of [] h = h
length-rest_of (e ∷ es) h = omega (arith, h)

module _ (eb : EventBus) (wired : IsWired eb) where
  -- A channel that is made anew, and is as open as before.
  with_channel-IsWired :
      (ch : ℕ) (c c' : Channel)
      → eb.channels ch ≡ some c
      → c'.closed ≡ c.closed
      → length c'.buffer ≤ buffer_size
      → IsWired (with_channel eb ch c')
  with_channel-IsWired ch c c' made same fits = record {
    open_ch = λ m d h.
        let o = wired.open_ch m d h in
        elim (Bool-cases (d == ch)) [
          | inr other ↦ record { channel = o.channel; made = rw other o.made; is_open = o.is_open }
          | inl is ↦
              let here : eb.channels ch ≡ some o.channel =
                subst (λ k. eb.channels k ≡ some o.channel) ((nat_beq_iff d ch).0 is) o.made in
              let one : o.channel ≡ c = cc (made, here) in
              record {
                channel = c';
                made = rw is refl;
                is_open = same ∙ sym (ap (λ k. k.closed) one) ∙ o.is_open;
              }
        ];
    only = wired.only;
    distinct = wired.distinct;
    numbered = λ d e h. elim (updated eb.channels ch d c' e h) [
      | inl (is, new) ↦ subst (λ k. k < eb.next_channel) (sym is) (wired.numbered ch c made)
      | inr old ↦ wired.numbered d e old
    ];
    room = λ d e h. elim (updated eb.channels ch d c' e h) [
      | inl (is, new) ↦ subst (λ k. length k.buffer ≤ buffer_size) new fits
      | inr old ↦ wired.room d e old
    ];
  }

  send_lem :
      (event : Event) (ch : ℕ)
      → IsOpen eb ch
      → (eb' : EventBus) × (send eb event ch (eb.channels ch) ≡ some eb')
        × IsWired eb'
        × (eb'.subscribers ≡ eb.subscribers)
  unfolding send
  send_lem event ch o =
      let c = o.channel in
      elim (Bool-cases (ltb (length c.buffer) buffer_size)) [
        | inr full ↦ (eb, rw (o.made, o.is_open, full) refl, wired, refl)
        | inl free ↦
            let c' = record c { buffer = c.buffer ++ (event ∷ []) } in
            (
              with_channel eb ch c',
              rw (o.made, o.is_open, free) refl,
              with_channel-IsWired ch c c' o.made refl
                  (ground (arith, length-append c.buffer (event ∷ []))),
              refl,
            )
      ]

  pub receive-IsWired : (ch : ℕ) → IsWired (receive eb ch (eb.channels ch))
  unfolding receive
  receive-IsWired ch = elim (Option-cases (eb.channels ch)) [
    | inl none_there ↦ rw none_there wired
    | inr (c, made) ↦ rw made (
        with_channel-IsWired ch c (record c { buffer = rest_of c.buffer }) made refl
          (length-rest_of c.buffer (wired.room ch c made)))
  ]

send_all-then :
    (eb eb1 eb2 : EventBus) (event : Event) (ch : ℕ) (subs : List ℕ)
    → send eb event ch (eb.channels ch) ≡ some eb1
    → send_all eb1 event subs ≡ some eb2
    → send_all eb event (ch ∷ subs) ≡ some eb2
unfolding send_all
send_all-then eb eb1 eb2 event ch subs sent rest = rw (sent, send_all) rest

send_all_lem :
    (eb : EventBus) (event : Event) (m : Text) (subs : List ℕ)
    → IsWired eb
    → ((c : ℕ) → mem c subs ≡ true → mem c (listed eb m) ≡ true)
    → (eb' : EventBus) × (send_all eb event subs ≡ some eb') × IsWired eb'
unfolding send_all
send_all_lem eb event m [] wired sub = (eb, refl, wired)
send_all_lem eb event m (ch ∷ subs) wired sub =
    let (eb1, sent, wired1, same) =
      send_lem eb wired event ch (wired.open_ch m ch (sub ch (ground arith))) in
    let (eb2, rest, wired2) =
      send_all_lem eb1 event m subs wired1
        (λ c h. subst (λ s. mem c (or_nil (s m)) ≡ true) (sym same) (sub c (ground arith))) in
    (eb2, send_all-then eb eb1 eb2 event ch subs sent rest, wired2)

pub publish_lem :
    (eb : EventBus) (m : Text) (event : Event)
    → IsWired eb
    → (eb' : EventBus) × (publish eb m event ≡ some eb') × IsWired eb'
unfolding publish
publish_lem eb m event wired = send_all_lem eb event m (listed eb m) wired (λ c h. h)
