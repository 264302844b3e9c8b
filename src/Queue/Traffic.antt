-- ===== src/Queue/Traffic.antt =====
-- A queue keeps what is sent and not yet taken, in its order, whatever calls are made.
use astron_claw.Prelude.{
  ℕ, suc, ◌+◌, ◌≤◌, ◌<◌, String, ◌≡◌, refl, sym, ap, subst, ◌∙◌, inl, inr, Option, none, some, List,
  [], ◌∷◌, ◌++◌, map, arith, if◌then◌else◌, Bool-cases, ++_assoc,
}
use astron_claw.Prelude.Int.{pos}
use astron_claw.Text.{contains}
use astron_claw.Redis.{Reply, ok, nil, failed}
use astron_claw.Dispatch.{entry, poll_failed, poll_empty}
use astron_claw.Queue.{
  StreamEntry, Streams, first_message, message_of, data_of, value, publish, on_read, consume,
  ensure_group, ack,
}
use astron_claw.Queue.Usage.{
  Use, send, take, acknowledge, Traffic, shown, count_sends, after_send, after_take, use_once,
  use_all, queue_of,
}
use astron_claw.Queue.Laws.{StreamLaws, added}

pub some_cancel {ℓ} : {A : Type ℓ} {a b : A} → some a ≡ some b → a ≡ b
some_cancel h = cc h

message_of-shown : (id : String) (text : Option String) → entry id (data_of text) ≡ shown (id, text)
message_of-shown id none = refl
message_of-shown id (some text) = refl

pub map-append {ℓ κ} :
    {A : Type ℓ} {B : Type κ} (f : A → B) (xs ys : List A) → map f (xs ++ ys) ≡ map f xs ++ map f ys
map-append f [] ys = refl
map-append f (x ∷ xs) ys = ap (λ zs. f x ∷ zs) (map-append f xs ys)

module _ (R : Streams) (waiting : R.Server → String → String → Option (List StreamEntry))
    (size : R.Server → String → ℕ) (L : StreamLaws R waiting size) (max : ℕ) (queue group : String)
    (block : ℕ) where
  -- Every entry that waited at first or was sent is taken or waits, in this order.
  pub record Kept (before : List StreamEntry) (more : ℕ) (t : Traffic R) : Type 0 where
    pub rest : List StreamEntry
    pub waits : waiting t.server queue group ≡ some rest
    pub order : t.taken ++ map shown rest ≡ map shown (before ++ t.sent)
    pub room : size t.server queue + more ≤ max

  sent-Kept :
      (before : List StreamEntry) (n : ℕ) (m : String) (t t' : Traffic R) (r : Reply String)
      → Kept before (suc n) t
      → (R.xadd queue (pos max) m t.server).0 ≡ r
      → after_send R m t (value r, (R.xadd queue (pos max) m t.server).1) ≡ some t'
      → Kept before n t'
  sent-Kept before n m t t' nil k e h = absurd (cc h)
  sent-Kept before n m t t' (failed x) k e h = absurd (cc h)
  sent-Kept before n m t t' (ok id) k e h =
      let s = (R.xadd queue (pos max) m t.server).1 in
      let fits : size t.server queue < max = omega (arith, k.room) in
      subst (Kept before n) (some_cancel h) (record {
        rest = k.rest ++ (id, some m) ∷ [];
        waits = L.xadd-ok queue group m id max t.server e fits ∙ ap (added (id, some m)) k.waits;
        order =
            ap (λ x. t.taken ++ x) (map-append shown k.rest ((id, some m) ∷ []))
            ∙ sym (++_assoc t.taken (map shown k.rest) (shown (id, some m) ∷ []))
            ∙ ap (λ x. x ++ shown (id, some m) ∷ []) k.order
            ∙ sym (map-append shown (before ++ t.sent) ((id, some m) ∷ []))
            ∙ ap (map shown) (++_assoc before t.sent ((id, some m) ∷ []));
        room = omega (arith, k.room, L.xadd-size queue m id max t.server e fits);
      })

  send-Kept :
      (before : List StreamEntry) (n : ℕ) (m : String) (t t' : Traffic R)
      → Kept before (suc n) t
      → use_once R (queue_of max) queue group block (send m) t ≡ some t'
      → Kept before n t'
  unfolding use_once publish
  send-Kept before n m t t' k h =
      sent-Kept before n m t t' (R.xadd queue (pos max) m t.server).0 k refl h

  -- what a read leaves alone
  idle-Kept :
      (before : List StreamEntry) (n : ℕ) (t : Traffic R) (s : R.Server)
      → Kept before n t
      → waiting s queue group ≡ waiting t.server queue group
      → size s queue ≡ size t.server queue
      → Kept before n (record t { server = s })
  idle-Kept before n t s k w z = record {
    rest = k.rest;
    waits = w ∙ k.waits;
    order = k.order;
    room = omega (arith, k.room, z);
  }

  found-Kept :
      (before : List StreamEntry) (n : ℕ) (t t' : Traffic R) (s : R.Server) (m : Option StreamEntry)
      → Kept before n t
      → ((e : StreamEntry)
          → m ≡ some e
          → (es : List StreamEntry) × (waiting t.server queue group ≡ some (e ∷ es))
            × (waiting s queue group ≡ some es))
      → (m ≡ none → waiting s queue group ≡ waiting t.server queue group)
      → size s queue ≡ size t.server queue
      → after_take R t (message_of m, s) ≡ some t'
      → Kept before n t'
  found-Kept before n t t' s none k f g z h =
      subst (Kept before n) (some_cancel h) (idle-Kept before n t s k (g refl) z)
  found-Kept before n t t' s (some (id, text)) k f g z h =
      let found = f (id, text) refl in
      subst (Kept before n) (some_cancel h) (record {
        rest = found.0;
        waits = found.2;
        order =
            ap (λ p. (t.taken ++ p ∷ []) ++ map shown found.0) (message_of-shown id text)
            ∙ ++_assoc t.taken (shown (id, text) ∷ []) (map shown found.0)
            ∙ ap (λ x. t.taken ++ map shown x) (some_cancel (sym found.1 ∙ k.waits))
            ∙ k.order;
        room = omega (arith, k.room, z);
      })

  read-Kept :
      (before : List StreamEntry) (n : ℕ) (c : String) (t t' : Traffic R)
      (r : Reply (List (List StreamEntry)))
      → Kept before n t
      → (R.xread_group queue group c block t.server).0 ≡ r
      → after_take R t (on_read R queue group r (R.xread_group queue group c block t.server).1)
        ≡ some t'
      → Kept before n t'
  unfolding on_read
  read-Kept before n c t t' (ok streams) k e h =
      found-Kept before n t t' (R.xread_group queue group c block t.server).1
        (first_message streams) k
        (λ m. L.xread_group-found queue group c block streams m t.server e)
        (λ f.
          let both = L.xread_group-none queue group c block streams t.server e f in
          both.1 ∙ sym both.0)
        (L.xread_group-size queue group c block t.server) h
  read-Kept before n c t t' nil k e h =
      let both = L.xread_group-nil queue group c block t.server e in
      subst (Kept before n) (some_cancel h) (
        idle-Kept before n t (R.xread_group queue group c block t.server).1 k (both.1 ∙ sym both.0)
          (L.xread_group-size queue group c block t.server))
  read-Kept before n c t t' (failed x) k e h = elim (Bool-cases (contains x "NOGROUP")) [
    | inl y ↦
        let gone = L.xread_group-no_group queue group c block x t.server e y in
        absurd (cc (gone.0, k.waits))
    | inr y ↦ absurd (
        cc (
          subst
            (λ b.
              after_take R t (
                if b
                then (
                  poll_empty,
                  (ensure_group R queue group (R.xread_group queue group c block t.server).1).1,
                )
                else (poll_failed, (R.xread_group queue group c block t.server).1))
              ≡ some t')
            y h))
  ]

  take-Kept :
      (before : List StreamEntry) (n : ℕ) (c : String) (t t' : Traffic R)
      → Kept before n t
      → use_once R (queue_of max) queue group block (take c) t ≡ some t'
      → Kept before n t'
  unfolding use_once consume
  take-Kept before n c t t' k h =
      read-Kept before n c t t' (R.xread_group queue group c block t.server).0 k refl h

  acknowledge-Kept :
      (before : List StreamEntry) (n : ℕ) (id : String) (t t' : Traffic R)
      → Kept before n t
      → use_once R (queue_of max) queue group block (acknowledge id) t ≡ some t'
      → Kept before n t'
  unfolding use_once ack
  acknowledge-Kept before n id t t' k h = subst (Kept before n) (some_cancel h) (
      idle-Kept before n t (R.xack queue group id t.server).1 k
        (L.xack-same queue group id t.server) (L.xack-size queue group id t.server))

  next :
      (us : List Use) (o : Option (Traffic R)) (t' : Traffic R)
      → elim o as (λ x. Option (Traffic R)) [
        | none ↦ none
        | some t ↦ use_all R (queue_of max) queue group block us t
      ]
        ≡ some t'
      → (t : Traffic R) × (o ≡ some t) × (use_all R (queue_of max) queue group block us t ≡ some t')
  next us none t' h = absurd (cc h)
  next us (some t) t' h = (t, refl, h)

  pub use_all-Kept :
      (before : List StreamEntry) (us : List Use) (t t' : Traffic R)
      → Kept before (count_sends us) t
      → use_all R (queue_of max) queue group block us t ≡ some t'
      → Kept before 0 t'
  unfolding use_all
  use_all-Kept before [] t t' k h = subst (Kept before 0) (some_cancel h) k
  use_all-Kept before (send m ∷ us) t t' k h =
      let (t1, one, all) = next us (use_once R (queue_of max) queue group block (send m) t) t' h in
      use_all-Kept before us t1 t' (send-Kept before (count_sends us) m t t1 k one) all
  use_all-Kept before (take c ∷ us) t t' k h =
      let (t1, one, all) = next us (use_once R (queue_of max) queue group block (take c) t) t' h in
      use_all-Kept before us t1 t' (take-Kept before (count_sends us) c t t1 k one) all
  use_all-Kept before (acknowledge id ∷ us) t t' k h =
      let (t1, one, all) =
        next us (use_once R (queue_of max) queue group block (acknowledge id) t) t' h in
      use_all-Kept before us t1 t' (acknowledge-Kept before (count_sends us) id t t1 k one) all
