-- ===== src/Monitor/Notices.antt =====
-- Who is told that a bot is gone.
use astron_claw.Prelude.{
  ℕ, String, ◌≡◌, refl, sym, ap, ◌∙◌, Bool, true, false, ◌&&◌, ◌||◌, none, some, List, [], ◌∷◌,
  if◌then◌else◌, str_eq, eq_refl, ◌==◌, arith, Bool-cases, inl, inr,
}
use astron_claw.Prelude.Dict.{Dict, insert, remove, lookup-insert, lookup-remove}
use astron_claw.Monitor.{
  SseConnection, Monitor, register_sse, unregister_sse, get_sse, is_notified, push, notify_all,
  notify_bot_disconnected,
}

-- one of the connections has this token and this address
unfoldable pub waits : String → ℕ → Dict SseConnection → Bool
waits token a [] = false
waits token a ((inbox, conn) ∷ conns) =
    (str_eq conn.token token && (conn.address == a)) || waits token a conns

push-is_notified :
    (a b : ℕ) (bs : List ℕ) → is_notified b (push a bs) ≡ (a == b) || is_notified b bs
unfolding push is_notified
push-is_notified a b bs = elim (Bool-cases (a == b)) [
  | inl e ↦
      let same : a ≡ b = ground (arith, e) in
      let here : is_notified b bs ≡ is_notified a bs = ap (λ c. is_notified c bs) (sym same) in
      ground (arith, here)
  | inr e ↦ ground arith
]

notify_all-is_notified :
    (token : String) (a : ℕ) (conns : Dict SseConnection) (bs : List ℕ)
    → is_notified a (notify_all token conns bs) ≡ waits token a conns || is_notified a bs
unfolding notify_all waits
notify_all-is_notified token a [] bs = refl
notify_all-is_notified token a ((inbox, conn) ∷ conns) bs = ground (
  arith,
  notify_all-is_notified token a conns
      (if str_eq conn.token token then push conn.address bs else bs),
  push-is_notified conn.address a bs,
)

-- When a bot is found to be gone, exactly the registered streams of its token get a notice, and
-- those that had one keep it.
pub notify_bot_disconnected-is_notified :
    (token : String) (a : ℕ) (m : Monitor)
    → is_notified a (notify_bot_disconnected token m).notified
      ≡ waits token a m.connections || is_notified a m.notified
unfolding notify_bot_disconnected
notify_bot_disconnected-is_notified token a m =
    notify_all-is_notified token a m.connections m.notified

waits-remove :
    (token k : String) (a : ℕ) (conns : Dict SseConnection)
    → waits token a conns ≡ false
    → waits token a (remove k conns) ≡ false
unfolding waits remove
waits-remove token k a [] h = refl
waits-remove token k a ((inbox, conn) ∷ conns) h = ground (arith, waits-remove token k a conns)

waits-again :
    (token k : String) (a : ℕ) (v : SseConnection) (conns : Dict SseConnection)
    → waits token a conns ≡ false
    → waits token a (remove k (insert k v conns)) ≡ false
unfolding waits remove insert
waits-again token k a v conns h =
    ground
      (arith, eq_refl k, waits-remove token k a (remove k conns) (waits-remove token k a conns h))

waits-first :
    (token k : String) (a : ℕ) (v : SseConnection) (conns : Dict SseConnection)
    → v.token ≡ token
    → v.address ≡ a
    → waits token a (insert k v conns) ≡ true
unfolding waits insert
waits-first token k a v conns e f = ground (arith, ap (str_eq v.token) (sym e), eq_refl v.token, f)

-- Registration is by inbox, and so is removal. Where a second stream of the same session
-- registers before the first ends, the second is the one that is registered, and gets a notice
-- when the bot is lost. Once the first has ended, the inbox has no registration, and the second
-- stream, which goes on, gets no notice. The second had none before, and its address was not
-- registered.
pub unregister_sse-superseded :
    (token session inbox : String) (first second : ℕ) (m : Monitor)
    → waits token second (register_sse token session inbox first m).connections ≡ false
    → is_notified second m.notified ≡ false
    → (let both =
          register_sse token session inbox second (register_sse token session inbox first m) in
        (get_sse inbox both
          ≡ some (record { token = token; session_id = session; address = second }))
        × (is_notified second (notify_bot_disconnected token both).notified ≡ true)
        × (get_sse inbox (unregister_sse inbox both) ≡ none)
        × (is_notified second (notify_bot_disconnected token (unregister_sse inbox both)).notified
            ≡ false))
unfolding unregister_sse register_sse
unregister_sse-superseded token session inbox first second m fresh quiet =
    let one = register_sse token session inbox first m in
    let both = register_sse token session inbox second one in
    let conn : SseConnection = record { token = token; session_id = session; address = second } in
    (
      lookup-insert inbox inbox conn one.connections
          ∙ ap (λ (b : Bool). if b then some conn else get_sse inbox one) (eq_refl inbox),
      notify_bot_disconnected-is_notified token second both
          ∙ ap (λ (b : Bool). b || is_notified second m.notified)
              (waits-first token inbox second conn one.connections refl refl),
      lookup-remove inbox inbox both.connections
          ∙ ap (λ (b : Bool). if b then none else get_sse inbox both) (eq_refl inbox),
      notify_bot_disconnected-is_notified token second (unregister_sse inbox both)
          ∙ ap (λ (b : Bool). b || is_notified second m.notified)
              (waits-again token inbox second conn one.connections fresh)
          ∙ quiet,
    )
