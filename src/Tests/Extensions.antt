-- ===== src/Tests/Extensions.antt =====
-- The cache of extensions.
use androix_xcb_libxcb.Base.{
  ℕ, zero, suc, ◌+◌, ◌≤◌, get_or, ◌≡◌, refl, true, false, [], ◌∷◌, some, ◌==◌, if◌then◌else◌, arith,
}
use androix_xcb_libxcb.Conn.{lazy_none, lazy_forced}
use androix_xcb_libxcb.Ext.{QueryExtension, Ext, get_extension_data, prefetch_extension_data}
use androix_xcb_libxcb.Ext.Laws.{IsValid}
use androix_xcb_libxcb.Ext.Entry.{Moved}
use androix_xcb_libxcb.Ext.Refine.{get_extension_data-Moved, get_extension_data-prefetch}

-- A connection that counts its requests; the reply to the n-th is 10 + n.
abbrev counting : QueryExtension ℕ ℕ
counting = record {
  has_error = λ sent. false;
  query_extension = λ sent e. (suc sent, suc sent);
  query_extension_reply = λ sent cookie. (some (10 + cookie), sent);
}

-- Extension 7 has the id 1 and a reply.
abbrev known : Ext ℕ ℕ
known = record {
  ids = record { next_global_id = 1; global_id = λ e. if e == 7 then 1 else 0 };
  extensions = lazy_forced (some 3) ∷ lazy_none ∷ [];
  connection = 0;
}

empty_from_one : (k : ℕ) → 1 ≤ k → get_or known.extensions k lazy_none ≡ lazy_none
empty_from_one zero h = absurd (omega arith)
empty_from_one (suc zero) h = refl
empty_from_one (suc (suc k)) h = refl

known-IsValid : IsValid known
known-IsValid = record {
  numbered = record {
    bound = λ e. ground arith;
    distinct = λ e e' pos same. ground (arith, pos, same);
  };
  fresh = empty_from_one;
}

get_extension_data-Moved_example :
    ((get_extension_data counting known 5 true).0 ≡ some 11)
    × Moved counting known 5 (lazy_forced (some 11)) 1 (get_extension_data counting known 5 true).1
get_extension_data-Moved_example = get_extension_data-Moved counting known 5 known-IsValid refl

get_extension_data-prefetch_example :
    let direct = get_extension_data counting known 5 true in
    let later =
      get_extension_data counting (prefetch_extension_data counting known 5 true) 5 true in
    (later.0 ≡ direct.0) × (later.1.connection ≡ direct.1.connection)
get_extension_data-prefetch_example =
    get_extension_data-prefetch counting known 5 known-IsValid refl refl
