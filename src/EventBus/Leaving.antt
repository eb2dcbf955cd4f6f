-- ===== src/EventBus/Leaving.antt =====
-- Subscribe and Unsubscribe keep the bus wired.
use sharm.Common.{
  ℕ, ◌≤◌, ◌<◌, ◌≡◌, refl, sym, ◌∙◌, ap, subst, inl, inr, Bool, true, false, ◌||◌, ◌&&◌, some, List,
  [], ◌∷◌, Text, ◌==◌, nat_eq, text_eq, text_beq_iff, text_beq_refl, nat_beq_iff, update, delete,
  length, arith, Bool-cases,
}
use sharm.EventBus.{
  EventBus, buffer_size, or_nil, subscribe, mem, remove_first, close_channel, drop_if_empty,
  unsubscribe,
}
use sharm.EventBus.Subscribers.{
  IsDistinct, mem-remove_first, IsDistinct-remove_first, mem-append, IsDistinct-append,
}
use sharm.EventBus.Wiring.{listed, IsWired, updated}

apart : (d ch : ℕ) (subs : List ℕ) → mem d subs ≡ true → mem ch subs ≡ false → (d == ch) ≡ false
apart d ch subs h k = elim (Bool-cases (d == ch)) [
  | inr other ↦ other
  | inl is ↦ absurd (cc (h, k, (nat_beq_iff d ch).0 is))
]

module _ (eb : EventBus) (wired : IsWired eb) (m : Text) where
  new : ℕ
  new = eb.next_channel

  joined : EventBus
  unfolding subscribe
  joined = (subscribe eb m).0

  fresh : (n : Text) → mem new (listed eb n) ≡ false
  unfolding new
  fresh n = elim (Bool-cases (mem eb.next_channel (listed eb n))) [
    | inr h ↦ h
    | inl h ↦
        let o = wired.open_ch n eb.next_channel h in
        absurd (omega (arith, wired.numbered eb.next_channel o.channel o.made))
  ]

  mem-joined :
      (n : Text) (d : ℕ) → mem d (listed joined n) ≡ (mem d (listed eb n) || (n == m && new == d))
  unfolding joined subscribe new
  mem-joined n d = elim (Bool-cases (n == m)) [
    | inl is ↦ rw (is, (text_beq_iff n m).0 is) (mem-append d eb.next_channel (listed eb m))
    | inr other ↦ rw other (ground arith)
  ]

  earlier :
      (n : Text) (d : ℕ)
      → mem d (listed joined n) ≡ true
      → (d == new) ≡ false
      → mem d (listed eb n) ≡ true
  earlier n d h other = ground (arith, mem-joined n d)

  only_here : (n : Text) (d : ℕ) → mem d (listed joined n) ≡ true → (d == new) ≡ true → n ≡ m
  only_here n d h is = (text_beq_iff n m).0 (
      here (n == m)
        (subst (λ k. mem k (listed eb n) ≡ false) (sym ((nat_beq_iff d new).0 is)) (fresh n))
        (sym (mem-joined n d) ∙ h))
    where
      here :
          (b : Bool)
          → mem d (listed eb n) ≡ false
          → (mem d (listed eb n) || (b && new == d)) ≡ true
          → b ≡ true
      here b k l = ground arith

  pub subscribe-IsWired : IsWired (subscribe eb m).0
  unfolding joined subscribe new
  subscribe-IsWired = record {
    open_ch = λ n d h. elim (Bool-cases (d == eb.next_channel)) [
      | inl is ↦ record {
        channel = record { buffer = []; closed = false };
        made = rw is refl;
        is_open = refl;
      }
      | inr other ↦
          let o = wired.open_ch n d (earlier n d h other) in
          record { channel = o.channel; made = rw other o.made; is_open = o.is_open }
    ];
    only = λ a b d h k. elim (Bool-cases (d == eb.next_channel)) [
      | inl is ↦ only_here a d h is ∙ sym (only_here b d k is)
      | inr other ↦ wired.only a b d (earlier a d h other) (earlier b d k other)
    ];
    distinct = λ n. elim (Bool-cases (n == m)) [
      | inl is ↦
          rw is (IsDistinct-append eb.next_channel (listed eb m) (wired.distinct m) (fresh m))
      | inr other ↦ rw other (wired.distinct n)
    ];
    numbered = λ d e h.
        elim (updated eb.channels eb.next_channel d (record { buffer = []; closed = false }) e h) [
          | inl (is, made) ↦ omega (arith, is)
          | inr old ↦ omega (arith, wired.numbered d e old)
        ];
    room = λ d e h.
        elim (updated eb.channels eb.next_channel d (record { buffer = []; closed = false }) e h) [
          | inl (is, made) ↦ subst (λ k. length k.buffer ≤ buffer_size) made (omega arith)
          | inr old ↦ wired.room d e old
        ];
  }

  module _ (ch : ℕ) (there : mem ch (listed eb m) ≡ true) where
    -- The bus after the channel has left the map and is closed.
    left : EventBus
    left = record eb {
      subscribers = update eb.subscribers m (remove_first ch (listed eb m));
      channels =
          update eb.channels ch (record (wired.open_ch m ch there).channel { closed = true });
    }

    rewritten :
        (n : Text) → (n == m) ≡ true → left.subscribers n ≡ some (remove_first ch (listed eb m))
    unfolding left
    rewritten n is = rw is refl

    unwritten : (n : Text) → (n == m) ≡ false → left.subscribers n ≡ eb.subscribers n
    unfolding left
    unwritten n other = rw other refl

    mem-left :
        (n : Text) (d : ℕ)
        → mem d (listed left n) ≡ true
        → (mem d (listed eb n) ≡ true) × ((d == ch) ≡ false)
    unfolding left
    mem-left n d h = elim (Bool-cases (n == m)) [
      | inl is ↦
          let rest : mem d (remove_first ch (listed eb m)) ≡ true =
            sym (ap (λ l. mem d (or_nil l)) (rewritten n is)) ∙ h in
          (
            subst (λ k. mem d (listed eb k) ≡ true) (sym ((text_beq_iff n m).0 is))
                (mem-remove_first d ch (listed eb m) rest),
            apart d ch (remove_first ch (listed eb m)) rest
                (IsDistinct-remove_first ch (listed eb m) (wired.distinct m)).1,
          )
      | inr other ↦
          let kept : mem d (listed eb n) ≡ true =
            sym (ap (λ l. mem d (or_nil l)) (unwritten n other)) ∙ h in
          (
            kept,
            elim (Bool-cases (d == ch)) [
              | inr apart_already ↦ apart_already
              | inl is ↦
                  let both : n ≡ m =
                    wired.only n m ch
                      (subst (λ k. mem k (listed eb n) ≡ true) ((nat_beq_iff d ch).0 is) kept)
                      there in
                  absurd (cc (other, (text_beq_iff n m).1 both))
            ],
          )
    ]

    left-IsWired : IsWired left
    unfolding left
    left-IsWired =
        let o = wired.open_ch m ch there in
        let c' = record o.channel { closed = true } in
        record {
          open_ch = λ n d h.
              let (before, other) = mem-left n d h in
              let p = wired.open_ch n d before in
              record { channel = p.channel; made = rw other p.made; is_open = p.is_open };
          only = λ a b d h k. wired.only a b d (mem-left a d h).0 (mem-left b d k).0;
          distinct = λ n. elim (Bool-cases (n == m)) [
            | inl is ↦ rw is (IsDistinct-remove_first ch (listed eb m) (wired.distinct m)).0
            | inr other ↦ rw other (wired.distinct n)
          ];
          numbered = λ d e h. elim (updated eb.channels ch d c' e h) [
            | inl (is, made) ↦
                subst (λ k. k < eb.next_channel) (sym is) (wired.numbered ch o.channel o.made)
            | inr old ↦ wired.numbered d e old
          ];
          room = λ d e h. elim (updated eb.channels ch d c' e h) [
            | inl (is, made) ↦
                subst (λ k. length k.buffer ≤ buffer_size) made (wired.room ch o.channel o.made)
            | inr old ↦ wired.room d e old
          ];
        }

    close_channel-left :
        close_channel
          (record eb { subscribers = update eb.subscribers m (remove_first ch (listed eb m)) })
          ch
          (eb.channels ch)
        ≡ some left
    unfolding close_channel left
    close_channel-left = let o = wired.open_ch m ch there in rw (o.made, o.is_open) refl

-- Dropping the key of a media without channels changes no list.
drop_if_empty-IsWired :
    (eb : EventBus) (m : Text) (subs : List ℕ)
    → listed eb m ≡ subs
    → IsWired eb
    → IsWired (drop_if_empty m subs eb)
unfolding drop_if_empty
drop_if_empty-IsWired eb m (s ∷ subs) same wired = wired
drop_if_empty-IsWired eb m [] same wired =
    let eb' = record eb { subscribers = delete eb.subscribers m } in
    let as_before : (n : Text) → listed eb' n ≡ listed eb n = λ n. elim (Bool-cases (n == m)) [
      | inl is ↦ rw (is, (text_beq_iff n m).0 is) (sym same)
      | inr other ↦ rw other refl
    ] in
    let before = λ (n : Text) (d : ℕ) (h : mem d (listed eb' n) ≡ true).
      subst (λ l. mem d l ≡ true) (as_before n) h in
    record {
      open_ch = λ n d h.
          let o = wired.open_ch n d (before n d h) in
          record { channel = o.channel; made = o.made; is_open = o.is_open };
      only = λ a b d h k. wired.only a b d (before a d h) (before b d k);
      distinct = λ n. subst IsDistinct (sym (as_before n)) (wired.distinct n);
      numbered = wired.numbered;
      room = wired.room;
    }

pub unsubscribe_lem :
    (eb : EventBus) (m : Text) (ch : ℕ)
    → IsWired eb
    → (eb' : EventBus) × (unsubscribe eb m ch ≡ some eb') × IsWired eb'
unfolding unsubscribe
unsubscribe_lem eb m ch wired = elim (Bool-cases (mem ch (listed eb m))) [
  | inr absent ↦ (
    drop_if_empty m (listed eb m) eb,
    rw absent refl,
    drop_if_empty-IsWired eb m (listed eb m) refl wired,
  )
  | inl there ↦
      let rest = remove_first ch (listed eb m) in
      let eb' = left eb wired m ch there in
      (
        drop_if_empty m rest eb',
        rw (there, close_channel-left eb wired m ch there) refl,
        drop_if_empty-IsWired eb' m rest
            (ap or_nil (rewritten eb wired m ch there m (text_beq_refl m)))
            (left-IsWired eb wired m ch there),
      )
]
