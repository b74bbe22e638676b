-- ===== src/Ext.antt =====
-- xcb_ext.c: what the server says about each extension, asked for once and kept by the connection.
-- Calls run under the lock of the cache; ids of extensions stay below 2 ^ 30, so that twice an id is
-- an int.
pub mod Laws
pub mod Entry
pub mod Refine
use androix_xcb_libxcb.Base.{
  ℕ, zero, suc, ◌+◌, ◌-◌, ◌*◌, Bool, true, false, List, [], ◌∷◌, ◌++◌, Option, none, some, ltb,
  ◌==◌, if◌then◌else◌, get_or, set, replicate, length,
}
use androix_xcb_libxcb.Conn.{Lazy, lazy_none, lazy_cookie, lazy_forced}

-- What the code asks of the rest of the connection, of type S: its error flag, and the generated calls
-- xcb_query_extension, which gives a cookie, and xcb_query_extension_reply, which gives null or a
-- reply of type A.
pub record QueryExtension (S A : Type 0) : Type 0 where
  pub has_error : S → Bool
  pub query_extension : S → ℕ → ℕ × S
  pub query_extension_reply : S → ℕ → Option A × S

-- `next_global_id`, and the field `global_id` of the xcb_extension_t at each address.
pub record Ids : Type 0 where
  pub next_global_id : ℕ
  pub global_id : ℕ → ℕ

-- _xcb_ext with the ids, and the rest of the connection.
pub record Ext (S A : Type 0) : Type 0 where
  pub ids : Ids
  pub extensions : List (Lazy (Option A))
  pub connection : S

-- Lines 66 and 67.
unfoldable pub assign_id : Ids → ℕ → Ids
assign_id ids ext =
    let id : ℕ = suc ids.next_global_id in
    if ids.global_id ext == 0
    then record {
      next_global_id = id;
      global_id = λ other. if other == ext then id else ids.global_id other;
    }
    else ids

module _ {A : Type 0} where
  -- get_index: the extensions, in which there is a slot for the id; none if realloc fails.
  unfoldable pub get_index : List (Lazy (Option A)) → ℕ → Bool → Option (List (Lazy (Option A)))
  get_index extensions idx allocated =
      if ltb (length extensions) idx
      then (if allocated
          then some (extensions ++ replicate (idx * 2 - length extensions) lazy_none)
          else none)
      else some extensions

module _ {S A : Type 0} (server : QueryExtension S A) where
  -- Lines 71 to 76.
  unfoldable pub query : Ext S A → ℕ → ℕ → Ext S A
  query c slot ext =
      let r = server.query_extension c.connection ext in
      elim (get_or c.extensions slot lazy_none) [
        | lazy_none ↦ record c {
          extensions = set c.extensions slot (lazy_cookie r.0);
          connection = r.1;
        }
        | lazy_cookie _ ↦ c
        | lazy_forced _ ↦ c
      ]

  -- get_lazyreply: the slot of the extension, or none for null.
  unfoldable pub get_lazyreply : Ext S A → ℕ → Bool → Option ℕ × Ext S A
  get_lazyreply c ext allocated =
      let ids = assign_id c.ids ext in
      let slot : ℕ = ids.global_id ext - 1 in
      elim (get_index c.extensions (ids.global_id ext) allocated) [
        | none ↦ (none, record c { ids = ids })
        | some extensions ↦
            (some slot, query (record c { ids = ids; extensions = extensions }) slot ext)
      ]

  -- Lines 92 to 99, for a lazy reply that is not null.
  unfoldable pub force : Ext S A → ℕ → Option A × Ext S A
  force c slot = elim (get_or c.extensions slot lazy_none) [
    | lazy_none ↦ (none, c)
    | lazy_cookie cookie ↦
        let r = server.query_extension_reply c.connection cookie in
        (r.0, record c { extensions = set c.extensions slot (lazy_forced r.0); connection = r.1 })
    | lazy_forced reply ↦ (reply, c)
  ]

  -- xcb_get_extension_data
  unfoldable pub get_extension_data : Ext S A → ℕ → Bool → Option A × Ext S A
  get_extension_data c ext allocated =
      let lazy = get_lazyreply c ext allocated in
      let forced : ℕ → Option A × Ext S A = force lazy.1 in
      if server.has_error c.connection
      then (none, c)
      else elim lazy.0 [ none ↦ (none, lazy.1) | some slot ↦ forced slot ]

  -- xcb_prefetch_extension_data
  unfoldable pub prefetch_extension_data : Ext S A → ℕ → Bool → Ext S A
  prefetch_extension_data c ext allocated =
      let lazy = get_lazyreply c ext allocated in
      if server.has_error c.connection then c else lazy.1

-- _xcb_ext_destroy: the replies that are freed, the last first.
unfoldable pub ext_destroy : {A : Type 0} → List (Lazy (Option A)) → List (Option A)
ext_destroy [] = []
ext_destroy (lazy_forced reply ∷ extensions) = ext_destroy extensions ++ (reply ∷ [])
ext_destroy (lazy_none ∷ extensions) = ext_destroy extensions
ext_destroy (lazy_cookie _ ∷ extensions) = ext_destroy extensions
