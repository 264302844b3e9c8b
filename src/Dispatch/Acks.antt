-- ===== src/Dispatch/Acks.antt =====
-- What the consumers of a worker's inbox do with its entries.
use astron_claw.Prelude.{
  ℕ, String, ◌≡◌, refl, sym, ◌∙◌, ap, Option, none, some, List, [], ◌∷◌, ◌++◌, arith,
}
use astron_claw.Prelude.Dict.{lookup}
use astron_claw.Json.{Value}
use astron_claw.Dispatch.{
  InboxMessage, Inbox, Polled, poll_failed, poll_empty, entry, write_to, take_message, inbox_step,
  inbox_run,
}

-- the ids of the entries, in order
unfoldable pub ids : List Polled → List String
ids [] = []
ids (poll_failed ∷ ps) = ids ps
ids (poll_empty ∷ ps) = ids ps
ids (entry id text ∷ ps) = id ∷ ids ps

pub write_to-bridge :
    (o : Option ℕ) (r : Option Value) (i : Inbox) → (write_to o r i).bridge ≡ i.bridge
write_to-bridge none r i = refl
write_to-bridge (some conn) none i = refl
write_to-bridge (some conn) (some v) i = refl

write_to-acked : (o : Option ℕ) (r : Option Value) (i : Inbox) → (write_to o r i).acked ≡ i.acked
write_to-acked none r i = refl
write_to-acked (some conn) none i = refl
write_to-acked (some conn) (some v) i = refl

take_message-acked : (m : Option InboxMessage) (i : Inbox) → (take_message m i).acked ≡ i.acked
unfolding take_message
take_message-acked none i = refl
take_message-acked (some m) i =
    ground (arith, write_to-acked (lookup m.token i.bridge.bots) m.request i)

++_assoc : (xs : List String) (y : String) (zs : List String) → xs ++ y ∷ [] ++ zs ≡ xs ++ (y ∷ zs)
++_assoc [] y zs = refl
++_assoc (x ∷ xs) y zs = rw (++_assoc xs y zs)

++_nil : (xs : List String) → xs ++ [] ≡ xs
++_nil [] = refl
++_nil (x ∷ xs) = rw (++_nil xs)

module _ (decode : String → Option InboxMessage) where
  -- Each entry that the consumers read is acknowledged once, in the order of reading, also one
  -- that is not valid, names no token, or names a token without a connection.
  pub inbox_run-acked :
      (ps : List Polled) (i : Inbox) → (inbox_run decode ps i).acked ≡ i.acked ++ ids ps
  unfolding inbox_run inbox_step ids
  inbox_run-acked [] i = sym (++_nil i.acked)
  inbox_run-acked (poll_failed ∷ ps) i = inbox_run-acked ps i
  inbox_run-acked (poll_empty ∷ ps) i = inbox_run-acked ps i
  inbox_run-acked (entry id text ∷ ps) i =
      let j : Inbox = record i { acked = i.acked ++ id ∷ [] } in
      inbox_run-acked ps (take_message (decode text) j)
      ∙ ap (λ (a : List String). a ++ ids ps) (take_message-acked (decode text) j)
      ∙ ++_assoc i.acked id (ids ps)
