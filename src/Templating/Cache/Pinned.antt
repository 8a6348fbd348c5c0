-- ===== src/Templating/Cache/Pinned.antt =====
-- What a pinned name may be answered with, over any run of requests.
use common_rust.Prelude.{
  ℕ, Option, none, some, List, [], ◌∷◌, ◌==◌, nat_eq, list_eq, is_eq, ◌≡◌, refl, ap, subst, arith,
  Bool-cases, inl, inr, eq_iff,
}
use common_rust.Prelude.Dict
use common_rust.Prelude.Result.{Result, ok, err, bind-eq-ok}
use common_rust.Prelude.Text.{Text}
use common_rust.Templating.Shell.{RenderError}
use common_rust.Templating.Cache.{
  Bytes, IoError, Entry, AssetCache, Builder, FileSystem, pin_of, verified, read_verified, stored,
  reread, from_entry, at_time, at_path, static_file, safe_path, mtime, build, with_root, check_pins,
}

module _ {W : Type 0} (fs : FileSystem W) (sha256 : Bytes → Bytes) where
  -- What an expected hash asks of the bytes that are handed out.
  abbrev pub HasHash : Option Bytes → Bytes → Type 0
  HasHash none bytes = Unit {0}
  HasHash (some expected) bytes = sha256 bytes ≡ expected

  -- Every entry has the hash that its name is pinned to.
  abbrev pub Pinned : List (Text × Bytes) → AssetCache → Type 0
  Pinned pins c =
      (c.pins ≡ pins)
      × ((name : Text) (e : Entry) → c.entries name ≡ some e → HasHash (pin_of pins name) e.bytes)

  verified-HasHash :
      (name : Text) (expected : Option Bytes) (bytes out : Bytes)
      → verified fs sha256 name expected bytes ≡ ok out
      → HasHash expected out
  unfolding verified
  verified-HasHash name none bytes out h = tt
  verified-HasHash name (some expected) bytes out h =
      ground (arith, h, eq_iff (sha256 bytes) expected)

  read_verified-HasHash :
      (path name : Text) (expected : Option Bytes) (w : W) (out : Bytes)
      → (read_verified fs sha256 path name expected w).0 ≡ ok out
      → HasHash expected out
  unfolding read_verified
  read_verified-HasHash path name expected w out h =
      let (bytes, _, made) = bind-eq-ok _ (verified fs sha256 name expected) h in
      verified-HasHash name expected bytes out made

  -- The answer that a request is given, and the cache after it.
  abbrev Good : List (Text × Bytes) → Text → Result RenderError Bytes × (AssetCache × W) → Type 0
  Good pins name r =
      ((out : Bytes) → r.0 ≡ ok out → HasHash (pin_of pins name) out) × Pinned pins r.1.0

  insert-Pinned :
      (pins : List (Text × Bytes)) (name : Text) (e : Entry) (c : AssetCache)
      → HasHash (pin_of pins name) e.bytes
      → Pinned pins c
      → Pinned pins (record c { entries = Dict.insert name e c.entries })
  insert-Pinned pins name e c h (same, old) = (
    same,
    λ other f found. elim (Bool-cases (name == other)) [
      | inl is_same ↦
          let e_is : e ≡ f = ground (arith, found, is_same) in
          let name_is : name ≡ other = (eq_iff name other).0 is_same in rw (← name_is, ← e_is) h
      | inr differs ↦ old other f (ground (arith, found, differs))
    ],
  )

  stored-Good :
      (pins : List (Text × Bytes)) (name : Text) (time : ℕ) (c : AssetCache)
      (r : Result RenderError Bytes × W)
      → ((out : Bytes) → r.0 ≡ ok out → HasHash (pin_of pins name) out)
      → Pinned pins c
      → Good pins name (stored fs sha256 name time c r)
  stored-Good pins name time c (err e, w) h p = (h, p)
  stored-Good pins name time c (ok bytes, w) h p =
      (h, insert-Pinned pins name (record { mtime = time; bytes = bytes }) c (h bytes refl) p)

  reread-Good :
      (pins : List (Text × Bytes)) (path name : Text) (time : ℕ) (c : AssetCache) (w : W)
      → Pinned pins c
      → Good pins name (reread fs sha256 path name time c w)
  reread-Good pins path name time c w p =
      stored-Good pins name time c (read_verified fs sha256 path name (pin_of c.pins name) w)
        (λ out h. rw (← p.0) (read_verified-HasHash path name (pin_of c.pins name) w out h)) p

  from_entry-Good :
      (pins : List (Text × Bytes)) (kept : Option Entry) (path name : Text) (time : ℕ)
      (c : AssetCache) (w : W)
      → ((e : Entry) → kept ≡ some e → HasHash (pin_of pins name) e.bytes)
      → Pinned pins c
      → Good pins name (from_entry fs sha256 kept path name time c w)
  from_entry-Good pins none path name time c w h p = reread-Good pins path name time c w p
  from_entry-Good pins (some e) path name time c w h p = elim (Bool-cases (is_eq e.mtime time)) [
    | inl same ↦ rw same (λ out made. (let is : e.bytes ≡ out = cc in rw (← is) (h e refl)), p)
    | inr differs ↦ rw differs (reread-Good pins path name time c w p)
  ]

  at_time-Good :
      (pins : List (Text × Bytes)) (r : Result RenderError ℕ × W) (path name : Text)
      (c : AssetCache)
      → Pinned pins c
      → Good pins name (at_time fs sha256 r path name c)
  at_time-Good pins (err e, w) path name c p = (λ out h. absurd (cc), p)
  at_time-Good pins (ok time, w) path name c p =
      from_entry-Good pins (c.entries name) path name time c w (p.1 name) p

  at_path-Good :
      (pins : List (Text × Bytes)) (r : Result RenderError Text × W) (name : Text) (c : AssetCache)
      → Pinned pins c
      → Good pins name (at_path fs sha256 r name c)
  at_path-Good pins (err e, w) name c p = (λ out h. absurd (cc), p)
  at_path-Good pins (ok path, w) name c p =
      at_time-Good pins (mtime fs sha256 path name w) path name c p

  static_file-Good :
      (pins : List (Text × Bytes)) (name : Text) (c : AssetCache) (w : W)
      → Pinned pins c
      → Good pins name (static_file fs sha256 name (c, w))
  unfolding static_file
  static_file-Good pins name c w p = at_path-Good pins (safe_path fs sha256 c name w) name c p

  -- The cache and the world after a run of requests.
  abbrev pub after : List Text → AssetCache × W → AssetCache × W
  after [] s = s
  after (name ∷ names) s = after names (static_file fs sha256 name s).1

  after-Pinned :
      (pins : List (Text × Bytes)) (names : List Text) (c : AssetCache) (w : W)
      → Pinned pins c
      → Pinned pins (after names (c, w)).0
  after-Pinned pins [] c w p = p
  after-Pinned pins (name ∷ names) c w p =
      let s = (static_file fs sha256 name (c, w)).1 in
      after-Pinned pins names s.0 s.1 (static_file-Good pins name c w p).1

  with_root-Pinned :
      (b : Builder) (r : Result IoError Text × W) (c : AssetCache)
      → (with_root fs sha256 b r).0 ≡ ok c
      → Pinned b.pins c
  with_root-Pinned b (err e, w) c h = absurd (cc)
  with_root-Pinned b (ok canonical, w) c h =
      let made : AssetCache = record {
        root = b.root;
        canonical_root = canonical;
        pins = b.pins;
        entries = Dict.empty;
      } in
      let (_, _, is) = bind-eq-ok (check_pins fs sha256 made b.pins w).0 (λ _. ok made) h in
      let same : made ≡ c = cc in subst (Pinned b.pins) same (refl, λ name e found. absurd (cc))

  build-Pinned :
      (b : Builder) (w : W) (c : AssetCache) → (build fs sha256 b w).0 ≡ ok c → Pinned b.pins c
  unfolding build
  build-Pinned b w c h = elim (Bool-cases (fs.is_dir b.root w).0) [
    | inl is ↦
        with_root-Pinned b (fs.canonicalize b.root (fs.is_dir b.root w).1) c (ground (arith, h, is))
    | inr is_not ↦ absurd (ground (arith, h, is_not))
  ]

  -- A cache that was built answers a request, whatever was asked for before and however the files
  -- changed meanwhile, with bytes whose digest is the pin of the asked name where it has one.
  pub static_file-HasHash :
      (b : Builder) (w w' : W) (c : AssetCache) (names : List Text) (name : Text) (out : Bytes)
      → build fs sha256 b w ≡ (ok c, w')
      → (static_file fs sha256 name (after names (c, w'))).0 ≡ ok out
      → HasHash (pin_of b.pins name) out
  static_file-HasHash b w w' c names name out built h =
      let start = build-Pinned b w c (ap (λ r. r.0) built) in
      let s = after names (c, w') in
      (static_file-Good b.pins name s.0 s.1 (after-Pinned b.pins names c w' start)).0 out h
