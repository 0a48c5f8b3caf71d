-- ===== src/Schema/Keys.antt =====
-- Which tables share a key of the cache.
use my_proxy.Base.{◌≡◌, ◌≢◌, refl, [], ◌∷◌, Bytes, All}
use my_proxy.Schema.{build_table_cache_key}

-- Two tables whose schemas have no dot in their names have the same key only where they are the
-- same table of the same schema.
pub build_table_cache_key-injective :
    (s s' t t' : Bytes)
    → All (λ c. c ≢ b'.') s
    → All (λ c. c ≢ b'.') s'
    → build_table_cache_key s t ≡ build_table_cache_key s' t'
    → (s ≡ s') × (t ≡ t')
build_table_cache_key-injective [] [] t t' h k e = (refl, cc)
build_table_cache_key-injective [] (c ∷ s') t t' h (k, ks) e = absurd (k cc)
build_table_cache_key-injective (c ∷ s) [] t t' (h, hs) k e = absurd (h cc)
build_table_cache_key-injective (c ∷ s) (d ∷ s') t t' (h, hs) (k, ks) e =
    let heads : c ≡ d = cc in
    let tails : build_table_cache_key s t ≡ build_table_cache_key s' t' = cc in
    let (same, rest) = build_table_cache_key-injective s s' t t' hs ks tails in (cc, rest)
