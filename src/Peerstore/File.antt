-- ===== src/Peerstore/File.antt =====
-- `load` and `save`. The file system is a map from paths to contents whose operations may fail;
-- the serialiser of serde_json is a parameter.
use p2p_service.Prelude.{
  ◌≡◌, ◌≢◌, refl, Bool, true, false, Option, none, some, String, String_discrete, arith, if_pos,
  if_neg, is_some, ◌&&◌, sym, ◌∙◌, Option-cases, inl, inr,
}
use p2p_service.HashMap
use p2p_service.HashMap.{HashMap}
use p2p_service.HashMap.Laws.{get-insert}
use p2p_service.Peerstore.{PeerStore, default}

abbrev pub Files : Type 0
Files = HashMap String String

-- What becomes of `std::fs::write`: done; failed with part of the text in the file; failed before
-- the file was opened.
pub data WriteOutcome : Type 0 where
  written : WriteOutcome
  cut_short : String → WriteOutcome
  not_opened : WriteOutcome

abbrev pub is_written : WriteOutcome → Bool
is_written written = true
is_written _ = false

-- The outcomes of the two operations of one call of `save`.
pub record Outcomes : Type 0 where
  pub write : WriteOutcome
  pub renamed : Bool

module _ (to_json : PeerStore → Option String) (from_json : String → Option PeerStore) where
  unfoldable pub load : Files → String → PeerStore
  load fs path = elim (HashMap.get String_discrete path fs) [
    | none ↦ default
    | some contents ↦ elim (from_json contents) [ none ↦ default | some store ↦ store ]
  ]

  rename_onto : Files → (tmp_path path contents : String) → Bool → Files × Bool
  rename_onto fs tmp_path path contents true = (
    HashMap.insert String_discrete path contents (HashMap.remove String_discrete tmp_path fs),
    true,
  )
  rename_onto fs tmp_path path contents false = (fs, false)

  write_then_rename : Files → (tmp_path path contents : String) → WriteOutcome → Bool → Files × Bool
  unfolding rename_onto
  write_then_rename fs tmp_path path contents written renamed =
      rename_onto (HashMap.insert String_discrete tmp_path contents fs) tmp_path path contents
        renamed
  write_then_rename fs tmp_path path contents (cut_short part) renamed =
      (HashMap.insert String_discrete tmp_path part fs, false)
  write_then_rename fs tmp_path path contents not_opened renamed = (fs, false)

  -- The files afterwards, and whether the call returned `Ok`. `tmp_path` is
  -- `path.with_extension("json.tmp")`.
  unfoldable pub save : PeerStore → Files → (tmp_path path : String) → Outcomes → Files × Bool
  unfolding write_then_rename
  save store fs tmp_path path o = elim (to_json store) [
    | none ↦ (fs, false)
    | some contents ↦ write_then_rename fs tmp_path path contents o.write o.renamed
  ]

  -- Each way through `write_then_rename`, as the file at `path` sees it.
  after_write :
      (fs : Files) (tmp_path path contents : String) (w : WriteOutcome) (renamed : Bool)
      → tmp_path ≢ path
      → let r = write_then_rename fs tmp_path path contents w renamed in
        (r.1 ≡ true → HashMap.get String_discrete path r.0 ≡ some contents)
        × (r.1 ≡ false → HashMap.get String_discrete path r.0 ≡ HashMap.get String_discrete path fs)
  unfolding write_then_rename
  after_write fs tmp_path path contents written true apart = (
    λ _.
        get-insert String_discrete path path contents _
        ∙ if_pos (String_discrete path path) refl _ _,
    λ e. cc,
  )
  after_write fs tmp_path path contents written false apart = (
    λ e. cc,
    λ _.
        get-insert String_discrete tmp_path path contents fs
        ∙ if_neg (String_discrete path tmp_path) (λ e. apart (sym e)) _ _,
  )
  after_write fs tmp_path path contents (cut_short part) renamed apart = (
    λ e. cc,
    λ _.
        get-insert String_discrete tmp_path path part fs
        ∙ if_neg (String_discrete path tmp_path) (λ e. apart (sym e)) _ _,
  )
  after_write fs tmp_path path contents not_opened renamed apart = (λ e. cc, λ _. refl)

  load_found :
      (fs : Files) (path contents : String) (store : PeerStore)
      → HashMap.get String_discrete path fs ≡ some contents
      → from_json contents ≡ some store
      → load fs path ≡ store
  unfolding load
  load_found fs path contents store found parsed = ground arith

  -- If the path of the temporary file is another one and the serialised store parses back, a save
  -- that reports success is what the next load reads.
  pub load-save :
      (store : PeerStore) (fs : Files) (tmp_path path : String) (o : Outcomes)
      → tmp_path ≢ path
      → ((contents : String) → to_json store ≡ some contents → from_json contents ≡ some store)
      → (save store fs tmp_path path o).1 ≡ true
      → load (save store fs tmp_path path o).0 path ≡ store
  unfolding save
  load-save store fs tmp_path path o apart parses = elim (Option-cases (to_json store)) [
    | inl e ↦ rw (e, save) (λ h. cc)
    | inr (contents, e) ↦
        let r = after_write fs tmp_path path contents o.write o.renamed apart in
        rw (e, save) (λ ok. load_found _ path contents store (r.0 ok) (parses contents e))
  ]

  -- A save that fails, at any point, leaves the file at its path untouched, if the path of the
  -- temporary file is another one.
  pub save_failed :
      (store : PeerStore) (fs : Files) (tmp_path path : String) (o : Outcomes)
      → tmp_path ≢ path
      → (save store fs tmp_path path o).1 ≡ false
      → HashMap.get String_discrete path (save store fs tmp_path path o).0
        ≡ HashMap.get String_discrete path fs
  unfolding save
  save_failed store fs tmp_path path o apart = elim (Option-cases (to_json store)) [
    | inl e ↦ rw (e, save) (λ _. refl)
    | inr (contents, e) ↦
        rw (e, save) (after_write fs tmp_path path contents o.write o.renamed apart).1
  ]

  rename_ok :
      (fs : Files) (tmp_path path contents : String) (w : WriteOutcome) (renamed : Bool)
      → (write_then_rename fs tmp_path path contents w renamed).1 ≡ (is_written w && renamed)
  unfolding write_then_rename
  rename_ok fs tmp_path path contents written true = refl
  rename_ok fs tmp_path path contents written false = refl
  rename_ok fs tmp_path path contents (cut_short part) renamed = refl
  rename_ok fs tmp_path path contents not_opened renamed = refl

  -- When a save reports success.
  pub save_ok :
      (store : PeerStore) (fs : Files) (tmp_path path : String) (o : Outcomes)
      → (save store fs tmp_path path o).1
        ≡ (is_some (to_json store) && is_written o.write && o.renamed)
  unfolding save
  save_ok store fs tmp_path path o = elim (Option-cases (to_json store)) [
    | inl e ↦ rw (e, save) refl
    | inr (contents, e) ↦ rw (e, save) (rename_ok fs tmp_path path contents o.write o.renamed)
  ]
