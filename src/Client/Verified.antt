-- ===== src/Client/Verified.antt =====
-- What `ensure_binary` of src/conduit/client/_provision.py leaves in the cache.
use mathlib.Core.Path.{subst}
use conduit_connector_sdk_py.Prelude.{
  bind-ok, ◌≡◌, refl, ◌∙◌, sym, ap, ◌⊎◌, inl, inr, true, Option, Option-cases, none, some, [], ◌∷◌,
  ◌++◌, suc, Result, ok, err, arith, ==_iff,
}
use conduit_connector_sdk_py.Prelude.Decimal.{Str, codes, same_text}
use conduit_connector_sdk_py.Client.Provision.{
  ProvisionError, os_error, Host, Triplet, platform_triplet, archive_name, binary_name, Bytes,
  Formats, listed, verify_checksum, extract_binary, Disk, no_temp, no_write, no_rename, works,
  Cache, binary_of, unlink, install, Network, http_get, github_releases, download, ensure_binary,
  resolve_version,
}

same_text-eq : (s t : Str) → same_text s t ≡ true → s ≡ t
unfolding same_text
same_text-eq [] [] h = refl
same_text-eq [] (d ∷ t) h = ground (arith, h)
same_text-eq (c ∷ s) [] h = ground (arith, h)
same_text-eq (c ∷ s) (d ∷ t) h = ground (arith, same_text-eq s t, ==_iff c d, h)

-- The bytes come from the release's archive for the host, whose digest is the one that the
-- release's own checksums.txt lists for its name.
pub record IsVerified (host : Host) (formats : Formats) (network : Network) (version : Str)
    (bytes : Bytes) : Type 0 where
  pub name : Str
  pub archive : Bytes
  pub checksums : Bytes
  pub triplet : Triplet
  pub named : archive_name host version ≡ ok name
  pub platform : platform_triplet host ≡ ok triplet
  pub fetched :
      network (github_releases ++ codes "/v" ++ version ++ codes "/" ++ name) ≡ some archive
  pub listing :
      network (github_releases ++ codes "/v" ++ version ++ codes "/checksums.txt") ≡ some checksums
  pub digest : listed name (formats.checksums checksums) ≡ some (formats.sha256 archive)
  pub extracted : extract_binary formats archive triplet.ext (binary_name host) ≡ ok bytes

verify_checksum-ok :
    (formats : Formats) (archive checksums : Bytes) (name : Str)
    → verify_checksum formats archive checksums name ≡ ok tt
    → listed name (formats.checksums checksums) ≡ some (formats.sha256 archive)
unfolding verify_checksum
verify_checksum-ok formats archive checksums name h =
    elim (Option-cases (listed name (formats.checksums checksums))) [
      | inl e ↦ absurd (ground (arith, rw (verify_checksum, e) at h))
      | inr (digest, e) ↦
          e
          ∙ ap some (
              sym (
                same_text-eq (formats.sha256 archive) digest
                  (ground (arith, rw (verify_checksum, e) at h))))
    ]

http_get-ok :
    (network : Network) (url : Str) (body : Bytes)
    → http_get network url ≡ ok body
    → network url ≡ some body
unfolding http_get
http_get-ok network url body h = elim (Option-cases (network url)) [
  | inl e ↦ absurd (ground (arith, rw (http_get, e) at h))
  | inr (b, e) ↦ e ∙ ap some (ground (arith, rw (http_get, e) at h))
]

download-IsVerified :
    (host : Host) (formats : Formats) (network : Network) (version : Str) (bytes : Bytes)
    → download host formats network version ≡ ok bytes
    → IsVerified host formats network version bytes
unfolding download
download-IsVerified host formats network version bytes h =
    let (name, named, h1) = bind-ok (archive_name host version) _ bytes h in
    let (archive, got, h2) = bind-ok (http_get network _) _ bytes h1 in
    let (checksums, got2, h3) = bind-ok (http_get network _) _ bytes h2 in
    let (u, v, h4) = bind-ok (verify_checksum formats archive checksums name) _ bytes h3 in
    let (t, p, h5) = bind-ok (platform_triplet host) _ bytes h4 in
    record {
      name = name;
      archive = archive;
      checksums = checksums;
      triplet = t;
      named = named;
      platform = p;
      fetched = http_get-ok network _ archive got;
      listing = http_get-ok network _ checksums got2;
      digest = verify_checksum-ok formats archive checksums name v;
      extracted = h5;
    }

-- how `ensure_binary` ends
pub data Ensured (host : Host) (formats : Formats) (network : Network) (version : Str) (c : Cache)
    : Result ProvisionError Str × Cache → Type 0 where
  cached :
      (bytes : Bytes)
      → binary_of version c.binaries ≡ some bytes
      → Ensured host formats network version c (ok version, c)
  installed :
      (bytes : Bytes)
      → binary_of version c.binaries ≡ none
      → IsVerified host formats network version bytes
      → Ensured host formats network version c
          (ok version, record c { binaries = (version, bytes) ∷ c.binaries })
  refused : (e : ProvisionError) → Ensured host formats network version c (err e, c)

no_temp_left : (c : Cache) → unlink (record c { temps = suc c.temps }) ≡ c
no_temp_left c = ap (λ n. record c { temps = n }) (omega arith)

install-Ensured :
    (host : Host) (formats : Formats) (network : Network) (disk : Disk) (version : Str)
    (bytes : Bytes) (c : Cache)
    → binary_of version c.binaries ≡ none
    → IsVerified host formats network version bytes
    → Ensured host formats network version c (install disk version bytes c)
unfolding install
install-Ensured host formats network no_temp version bytes c n v = refused os_error
install-Ensured host formats network no_write version bytes c n v =
    subst (λ d. Ensured host formats network version c (err os_error, d)) (sym (no_temp_left c))
      (refused os_error)
install-Ensured host formats network no_rename version bytes c n v =
    subst (λ d. Ensured host formats network version c (err os_error, d)) (sym (no_temp_left c))
      (refused os_error)
install-Ensured host formats network works version bytes c n v = installed bytes n v

Download-cases :
    (r : Result ProvisionError Bytes)
    → ((bytes : Bytes) × (r ≡ ok bytes)) ⊎ ((e : ProvisionError) × (r ≡ err e))
Download-cases (ok bytes) = inl (bytes, refl)
Download-cases (err e) = inr (e, refl)

-- Whatever host, network and disk do, `ensure_binary` returns a binary that was cached, or installs one
-- of a verified download, whose archive and list of digests are those of the release of that very
-- version, or raises and leaves the cache as it was, without a temporary file.
pub ensure_binary-Ensured :
    (host : Host) (formats : Formats) (network : Network) (disk : Disk) (version : Option Str)
    (env : Str) (c : Cache)
    → Ensured host formats network
        (resolve_version version env)
        c
        (ensure_binary host formats network disk version env c)
unfolding ensure_binary
ensure_binary-Ensured host formats network disk version env c =
    let v = resolve_version version env in
    elim (Option-cases (binary_of v c.binaries)) [
      | inr (bytes, e) ↦ rw (ensure_binary, e) (cached bytes e)
      | inl n ↦ elim (Download-cases (download host formats network v)) [
        | inl (bytes, d) ↦
            rw (ensure_binary, n, d)
              (install-Ensured host formats network disk v bytes c n
                (download-IsVerified host formats network v bytes d))
        | inr (e, d) ↦ rw (ensure_binary, n, d) (refused e)
      ]
    ]
