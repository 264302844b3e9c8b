-- ===== src/Cleanup/Effects.antt =====
-- What the cleanup of a token's inboxes leaves of the bots' records.
use astron_claw.Prelude.{String, ◌≡◌, ◌≢◌, refl, ◌∙◌, List, [], ◌∷◌}
use astron_claw.Redis.{Redis, Reply, ok, nil, failed}
use astron_claw.Redis.Laws.{View, RedisLaws}
use astron_claw.Cleanup.{
  delete_all, delete_inboxes, do_artifact_cleanup, cleanup_chat_inboxes, chat_inbox_index,
  bot_inbox_key,
}

-- A key that is not in a list.
unfoldable pub Absent : String → List String → Type 0
Absent k [] = k ≡ k
Absent k (j ∷ js) = (j ≢ k) × Absent k js

module _ (R : Redis) (V : View R.Server) (L : RedisLaws R V) where
  -- Deleting keys leaves what stands at another key.
  pub delete_all-text :
      (ks : List String) (k : String) (s : R.Server)
      → Absent k ks
      → V.text (delete_all R ks s) k ≡ V.text s k
  unfolding delete_all Absent
  delete_all-text [] k s _ = refl
  delete_all-text (j ∷ js) k s (ne, rest) =
      delete_all-text js k (R.del j s).1 rest ∙ (L.del-frame j k s ne).text

  -- the keys that a cleanup of inboxes deletes one by one
  abbrev listed : Reply (List String) → List String
  listed (ok keys) = keys
  listed nil = []
  listed (failed e) = []

  delete_inboxes-text :
      (token k : String) (r : Reply (List String)) (s : R.Server)
      → chat_inbox_index token ≢ k
      → Absent k (listed r)
      → V.text (delete_inboxes R token (r, s)) k ≡ V.text s k
  unfolding delete_inboxes
  delete_inboxes-text token k (ok keys) s ne absent =
      (L.del-frame (chat_inbox_index token) k _ ne).text ∙ delete_all-text keys k s absent
  delete_inboxes-text token k nil s ne absent = refl
  delete_inboxes-text token k (failed e) s ne absent = refl

  -- A cleanup of a token's inboxes deletes at most the bot's inbox, the chat inboxes that its index
  -- lists, and the index: what stands at any other key stays.
  pub do_artifact_cleanup-text :
      (token k : String) (s : R.Server)
      → bot_inbox_key token ≢ k
      → chat_inbox_index token ≢ k
      → Absent k (listed (R.smembers (chat_inbox_index token) (R.del (bot_inbox_key token) s).1).0)
      → V.text (do_artifact_cleanup R token s) k ≡ V.text s k
  unfolding do_artifact_cleanup cleanup_chat_inboxes
  do_artifact_cleanup-text token k s inbox index absent =
      let s1 = (R.del (bot_inbox_key token) s).1 in
      let read = R.smembers (chat_inbox_index token) s1 in
      delete_inboxes-text token k read.0 read.1 index absent
      ∙ (L.smembers-same (chat_inbox_index token) k s1).text
      ∙ (L.del-frame (bot_inbox_key token) k s inbox).text
