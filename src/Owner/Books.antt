-- ===== src/Owner/Books.antt =====
-- What the calls of the contract leave of an owner, whatever they are answered.
use broadauth.Base.{◌+◌, ◌≡◌, refl, Bytes, true, false, Bool, bytes_eq, nat_eqb}
use broadauth.Base.State.{Post}
use broadauth.Owner.{
  Outside, Owner, RcdState, KeyEntry, publish, change_current_index, require, call,
}
use broadauth.Owner.Serve.{published, switched}

module _ (out : Outside) where
  -- What the calls of the outside leave, but for their number.
  pub record SameBooks (o o' : Owner) : Type 0 where
    pub rcds : o'.rcds ≡ o.rcds
    pub log : o'.log ≡ o.log
    pub hashchain_len : o'.hashchain_len ≡ o.hashchain_len

  pub publish-Post :
      (e : KeyEntry) (o : Owner)
      → Post (λ _ o'. o' ≡ published out e o) (SameBooks o) (publish out e o)
  unfolding publish published call require
  publish-Post e o = go (out.store_key o.calls e) (out.mined (o.calls + 1)) refl refl
    where
      go :
          (t m : Bool)
          → out.store_key o.calls e ≡ t
          → out.mined (o.calls + 1) ≡ m
          → Post (λ _ o'. o' ≡ published out e o) (SameBooks o) (publish out e o)
      go false m p q = rw p (record { rcds = refl; log = refl; hashchain_len = refl })
      go true false p q = rw (p, q) (record { rcds = refl; log = refl; hashchain_len = refl })
      go true true p q = rw (p, q) refl

  pub change-Post :
      (id : Bytes) (s : RcdState) (o : Owner)
      → Post (λ _ o'. o' ≡ switched out id s o) (SameBooks o) (change_current_index out id s o)
  unfolding change_current_index switched call require
  change-Post id s o =
      go (nat_eqb s.current_index 0) (out.change_index o.calls id) (out.mined (o.calls + 1)) refl
        refl refl
    where
      go :
          (z t m : Bool)
          → nat_eqb s.current_index 0 ≡ z
          → out.change_index o.calls id ≡ t
          → out.mined (o.calls + 1) ≡ m
          → Post (λ _ o'. o' ≡ switched out id s o) (SameBooks o) (change_current_index out id s o)
      go true t m z p q = rw z refl
      go false false m z p q = rw (z, p) (record { rcds = refl; log = refl; hashchain_len = refl })
      go false true false z p q =
          rw (z, p, q) (record { rcds = refl; log = refl; hashchain_len = refl })
      go false true true z p q = rw (z, p, q) refl
