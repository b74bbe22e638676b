-- ===== src/Ext/Refine.antt =====
-- xcb_get_extension_data and its prefetch, as operations on one entry of the map.
use androix_xcb_libxcb.Base.{ℕ, ◌≡◌, ◌≢◌, refl, sym, ◌∙◌, ap, true, false, Option, some, ==_refl}
use mathlib.Core.Path.{subst}
use androix_xcb_libxcb.Conn.{Lazy, lazy_none, lazy_cookie, lazy_forced}
use androix_xcb_libxcb.Ext.{
  QueryExtension, Ext, get_lazyreply, force, get_extension_data, prefetch_extension_data,
}
use androix_xcb_libxcb.Ext.Laws.{IsValid, cached}
use androix_xcb_libxcb.Ext.Entry.{ask, await, Moved, Moved-twice, get_lazyreply-Moved, force-Moved}

module _ {S A : Type 0} (server : QueryExtension S A) where
  ask-asked : (l : Lazy (Option A)) (s : S) (e : ℕ) → (ask server l s e).0 ≢ lazy_none
  ask-asked lazy_none s e h = cc
  ask-asked (lazy_cookie k) s e h = cc
  ask-asked (lazy_forced a) s e h = cc

  ask_again :
      (l : Lazy (Option A)) (s t : S) (e : ℕ)
      → ask server (ask server l s e).0 t e ≡ ((ask server l s e).0, t)
  ask_again lazy_none s t e = refl
  ask_again (lazy_cookie k) s t e = refl
  ask_again (lazy_forced a) s t e = refl

  Moved-self :
      (c c' : Ext S A) (e : ℕ) (l : Lazy (Option A)) (s : S)
      → Moved server c e l s c'
      → cached c' e ≡ l
  Moved-self c c' e l s m = m.entries e ∙ rw (==_refl e) refl

  get_extension_data-found :
      (c c' : Ext S A) (e n : ℕ)
      → server.has_error c.connection ≡ false
      → get_lazyreply server c e true ≡ (some n, c')
      → get_extension_data server c e true ≡ force server c' n
  unfolding get_extension_data
  get_extension_data-found c c' e n no_error found =
      rw (no_error, found) (ap (λ (q : Option ℕ × Ext S A). force server q.1 n) found)

  -- When the connection has no error, the state is valid and realloc succeeds,
  -- xcb_get_extension_data works on the entry of its extension alone: it asks the server if nothing was
  -- asked before, waits for the reply if there is none yet, returns the reply kept or received (or
  -- null, if none came), and keeps it; the entries of all other extensions stay, and the state valid.
  pub get_extension_data-Moved :
      (c : Ext S A) (e : ℕ)
      → IsValid c
      → server.has_error c.connection ≡ false
      → let a = ask server (cached c e) c.connection e in
        let r = await server a.0 a.1 in
        ((get_extension_data server c e true).0 ≡ r.0)
        × Moved server c e (lazy_forced r.0) r.1 (get_extension_data server c e true).1
  get_extension_data-Moved c e ok no_error =
      let (n, c', found, m, slot) = get_lazyreply-Moved server c e ok in
      let a = ask server (cached c e) c.connection e in
      let self = Moved-self c c' e a.0 a.1 m in
      let f =
        force-Moved server c' e n m.valid slot
          (λ h. ask-asked (cached c e) c.connection e (sym self ∙ h)) in
      let r = await server a.0 a.1 in
      let same : await server (cached c' e) c'.connection ≡ r = rw (self, m.connection) refl in
      let f' =
        subst
          (λ (q : Option A × S).
            ((force server c' n).0 ≡ q.0)
            × Moved server c' e (lazy_forced q.0) q.1 (force server c' n).1)
          same f in
      rw (get_extension_data-found c c' e n no_error found)
        (f'.0, Moved-twice server c c' (force server c' n).1 e a.0 (lazy_forced r.0) a.1 r.1 m f'.1)

  -- xcb_prefetch_extension_data asks the server if nothing was asked before, and changes no other
  -- entry, when the connection has no error, the state is valid and realloc succeeds.
  prefetch_extension_data-Moved :
      (c : Ext S A) (e : ℕ)
      → IsValid c
      → server.has_error c.connection ≡ false
      → let a = ask server (cached c e) c.connection e in
        Moved server c e a.0 a.1 (prefetch_extension_data server c e true)
  unfolding prefetch_extension_data
  prefetch_extension_data-Moved c e ok no_error =
      let (n, c', found, m, slot) = get_lazyreply-Moved server c e ok in
      rw (no_error, found, prefetch_extension_data) m

  -- A prefetch makes no difference to the reply, and none to what the server is asked, if it leaves no
  -- error: the state is valid, the connection has no error before, and realloc succeeds.
  pub get_extension_data-prefetch :
      (c : Ext S A) (e : ℕ)
      → IsValid c
      → server.has_error c.connection ≡ false
      → server.has_error (prefetch_extension_data server c e true).connection ≡ false
      → let direct = get_extension_data server c e true in
        let later = get_extension_data server (prefetch_extension_data server c e true) e true in
        (later.0 ≡ direct.0) × (later.1.connection ≡ direct.1.connection)
  get_extension_data-prefetch c e ok no_error still =
      let d = prefetch_extension_data server c e true in
      let a = ask server (cached c e) c.connection e in
      let m = prefetch_extension_data-Moved c e ok no_error in
      let direct = get_extension_data-Moved c e ok no_error in
      let later = get_extension_data-Moved d e m.valid still in
      let self = Moved-self c d e a.0 a.1 m in
      let same : ask server (cached d e) d.connection e ≡ a =
        rw (self, m.connection) (ask_again (cached c e) c.connection a.1 e) in
      let reply = ap (λ (q : Lazy (Option A) × S). await server q.0 q.1) same in
      (
        later.0 ∙ (ap (λ (q : Option A × S). q.0) reply ∙ sym direct.0),
        later.1.connection ∙ (ap (λ (q : Option A × S). q.1) reply ∙ sym direct.1.connection),
      )
