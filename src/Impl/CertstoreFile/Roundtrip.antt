-- ===== src/Impl/CertstoreFile/Roundtrip.antt =====
-- impl/certstore-file/issuer.go: from a certificate to its files and back.
use dynamic_routes_provision.Base.{
  String, ℕ, ◌⧺◌, ◌≡◌, ◌≢◌, refl, sym, ap, ◌∙◌, some, List, [], ◌∷◌,
}
use dynamic_routes_provision.Core.Result.{
  Result, ok, err, panic, Action, wrapping, wrapped, lift, ◌>>=◌, pure, handle,
}
use dynamic_routes_provision.Core.Result.Rules.{continue-step, wrapped-eq-ok}
use dynamic_routes_provision.Core.Route.{Certificate}
use dynamic_routes_provision.Impl.CertstoreFile.{
  FileSystem, MetaCodec, CertMeta, CachingIssuer, is_empty, read, write_ca, to_meta, write_files,
  files_of, store, to_cert, load,
}

-- What the operating system documents: a file that was written is read back, other files and the
-- making of a directory leave it alone, and the four files of a directory are different.
pub record IsFileSystem {W : Type 0} (fs : FileSystem W) : Type 0 where
  pub read_write :
      (p : String) (bs : List ℕ) (w w' : W)
      → fs.write_file p bs w ≡ (ok tt, w')
      → fs.read_file p w' ≡ ok bs
  pub read_other :
      (p q : String) (bs : List ℕ) (w w' : W)
      → p ≢ q
      → fs.write_file p bs w ≡ (ok tt, w')
      → fs.read_file q w' ≡ fs.read_file q w
  pub read_mkdir :
      (d q : String) (w w' : W)
      → fs.mkdir_all d w ≡ (ok tt, w')
      → fs.read_file q w' ≡ fs.read_file q w
  pub read_safe : (p : String) (w : W) → fs.read_file p w ≢ panic
  pub cert_key : (d : String) → fs.join d "cert.pem" ≢ fs.join d "key.pem"
  pub cert_ca : (d : String) → fs.join d "cert.pem" ≢ fs.join d "ca.pem"
  pub cert_meta : (d : String) → fs.join d "cert.pem" ≢ fs.join d "meta.json"
  pub key_ca : (d : String) → fs.join d "key.pem" ≢ fs.join d "ca.pem"
  pub key_meta : (d : String) → fs.join d "key.pem" ≢ fs.join d "meta.json"
  pub ca_meta : (d : String) → fs.join d "ca.pem" ≢ fs.join d "meta.json"

-- What was encoded of this metadata is decoded to it.
abbrev pub Decodes : MetaCodec → CertMeta → Type 0
Decodes k m = (bs : List ℕ) → k.marshal m ≡ ok bs → k.unmarshal bs ≡ ok m

-- The chain that is read: none, when there is no file.
unfoldable pub chain_of : Result (List ℕ) → List ℕ
chain_of (ok bs) = bs
chain_of (err e) = []
chain_of panic = []

-- The chain that a directory holds after a certificate was stored in it: an empty chain does not
-- replace the one before.
unfoldable pub chain_after : List ℕ → List ℕ → List ℕ
chain_after [] before = before
chain_after (b ∷ bs) before = b ∷ bs

module _ {W : Type 0} (c : CachingIssuer W) (l : IsFileSystem c.files) where
  sequence-step :
      {A B : Type 0} (context : String) (m : Action W A) (f : A → Action W B) (w w' : W) (b : B)
      → (wrapping context m >>= f) w ≡ (ok b, w')
      → (a : A) × (m w ≡ (ok a, (m w).1)) × (f a (m w).1 ≡ (ok b, w'))
  sequence-step context m f w w' b h =
      let (a, e, rest) = continue-step (wrapped context (m w).0) f (m w).1 h in
      (a, λ i. (wrapped-eq-ok context (m w).0 e i, (m w).1), rest)

  written :
      (context : String) (p : String) (bs : List ℕ) (w w' : W)
      → wrapping context (c.files.write_file p bs) w ≡ (ok tt, w')
      → c.files.write_file p bs w ≡ (ok tt, w')
  written context p bs w w' h = λ i. (
    wrapped-eq-ok context (c.files.write_file p bs w).0 (ap (λ (r : Result (Unit {0}) × W). r.0) h)
        i,
    (h i).1,
  )

  written-other :
      (context : String) (p q : String) (bs : List ℕ) (w w' : W)
      → p ≢ q
      → wrapping context (c.files.write_file p bs) w ≡ (ok tt, w')
      → c.files.read_file q w' ≡ c.files.read_file q w
  written-other context p q bs w w' ne h = l.read_other p q bs w w' ne (written context p bs w w' h)

  ca-read :
      (r : Result (List ℕ)) (w : W)
      → r ≢ panic
      → handle r (λ e. pure []) pure w ≡ (ok (chain_of r), w)
  unfolding chain_of
  ca-read (ok bs) w ne = refl
  ca-read (err e) w ne = refl
  ca-read panic w ne = absurd (ne refl)

  load-files :
      (dir : String) (w : W) (meta : CertMeta) (meta_bytes cert key : List ℕ)
      → c.files.read_file (c.files.join dir "meta.json") w ≡ ok meta_bytes
      → c.codec.unmarshal meta_bytes ≡ ok meta
      → c.files.read_file (c.files.join dir "cert.pem") w ≡ ok cert
      → c.files.read_file (c.files.join dir "key.pem") w ≡ ok key
      → load c dir w ≡ (
        ok (to_cert c meta cert key (chain_of (c.files.read_file (c.files.join dir "ca.pem") w))),
        w,
      )
  unfolding load read
  load-files dir w meta meta_bytes cert key m u ce ke =
      rw
        (
          m,
          u,
          ce,
          ke,
          ca-read (c.files.read_file (c.files.join dir "ca.pem") w) w
              (l.read_safe (c.files.join dir "ca.pem") w),
        )
        refl

  -- What writing the chain does to the chain, and not to the certificate and the key.
  write_ca-chain :
      (dir : String) (ca : List ℕ) (w w' : W)
      → write_ca c dir ca w ≡ (ok tt, w')
      → (chain_of (c.files.read_file (c.files.join dir "ca.pem") w')
          ≡ chain_after ca (chain_of (c.files.read_file (c.files.join dir "ca.pem") w)))
        × (c.files.read_file (c.files.join dir "cert.pem") w'
            ≡ c.files.read_file (c.files.join dir "cert.pem") w)
        × (c.files.read_file (c.files.join dir "key.pem") w'
            ≡ c.files.read_file (c.files.join dir "key.pem") w)
  unfolding write_ca is_empty chain_after chain_of
  write_ca-chain dir [] w w' h =
      let e = ap (λ (r : Result (Unit {0}) × W). r.1) h in
      (
        ap (λ v. chain_of (c.files.read_file (c.files.join dir "ca.pem") v)) (sym e),
        ap (c.files.read_file (c.files.join dir "cert.pem")) (sym e),
        ap (c.files.read_file (c.files.join dir "key.pem")) (sym e),
      )
  write_ca-chain dir (b ∷ ca) w w' h = (
    ap chain_of (
        l.read_write (c.files.join dir "ca.pem") (b ∷ ca) w w'
          (written "write ca.pem" (c.files.join dir "ca.pem") (b ∷ ca) w w' h)),
    written-other "write ca.pem" (c.files.join dir "ca.pem") (c.files.join dir "cert.pem") (b ∷ ca)
        w w' (λ e. l.cert_ca dir (sym e)) h,
    written-other "write ca.pem" (c.files.join dir "ca.pem") (c.files.join dir "key.pem") (b ∷ ca) w
        w' (λ e. l.key_ca dir (sym e)) h,
  )

  -- The files after the metadata, the last file, is written.
  meta_written :
      (dir : String) (meta : CertMeta) (w w' : W)
      → (wrapping "marshal meta" (lift (c.codec.marshal meta)) >>= λ bs.
            wrapping "write meta.json" (c.files.write_file (c.files.join dir "meta.json") bs))
          w
        ≡ (ok tt, w')
      → (bs : List ℕ) × (c.codec.marshal meta ≡ ok bs)
        × (c.files.read_file (c.files.join dir "meta.json") w' ≡ ok bs)
        × (c.files.read_file (c.files.join dir "cert.pem") w'
            ≡ c.files.read_file (c.files.join dir "cert.pem") w)
        × (c.files.read_file (c.files.join dir "key.pem") w'
            ≡ c.files.read_file (c.files.join dir "key.pem") w)
        × (c.files.read_file (c.files.join dir "ca.pem") w'
            ≡ c.files.read_file (c.files.join dir "ca.pem") w)
  meta_written dir meta w w' h =
      let (bs, made, last) =
        sequence-step "marshal meta" (lift (c.codec.marshal meta))
          (λ bs. wrapping "write meta.json" (c.files.write_file (c.files.join dir "meta.json") bs))
          w w' tt h in
      (
        bs,
        ap (λ (r : Result (List ℕ) × W). r.0) made,
        l.read_write (c.files.join dir "meta.json") bs w w'
            (written "write meta.json" (c.files.join dir "meta.json") bs w w' last),
        written-other "write meta.json" (c.files.join dir "meta.json") (c.files.join dir "cert.pem")
            bs w w' (λ e. l.cert_meta dir (sym e)) last,
        written-other "write meta.json" (c.files.join dir "meta.json") (c.files.join dir "key.pem")
            bs w w' (λ e. l.key_meta dir (sym e)) last,
        written-other "write meta.json" (c.files.join dir "meta.json") (c.files.join dir "ca.pem")
            bs w w' (λ e. l.ca_meta dir (sym e)) last,
      )

  -- Where files keep what was written to them and the certificate's metadata is decoded to what was encoded: a
  -- certificate that was stored without an error is loaded as it was, but for its chain. A chain
  -- that is not empty is loaded too; for an empty one, the chain that the directory held before is
  -- loaded with the new certificate.
  pub load-store :
      (dir : String) (cert : Certificate) (w w' : W)
      → Decodes c.codec (to_meta c cert)
      → store c dir (some cert) w ≡ (ok tt, w')
      → load c dir w' ≡ (
        ok (record cert {
          ca_cert_pem =
              chain_after cert.ca_cert_pem
                (chain_of (c.files.read_file (c.files.join dir "ca.pem") w));
        }),
        w',
      )
  unfolding store files_of write_files to_meta to_cert
  load-store dir cert w w' codec h =
      let (u, made, h₁) = sequence-step ("mkdir " ⧺ dir) (c.files.mkdir_all dir) _ w w' tt h in
      let w₁ = (c.files.mkdir_all dir w).1 in
      let put_cert = c.files.write_file (c.files.join dir "cert.pem") cert.cert_pem in
      let (u₁, wrote_cert, h₂) = sequence-step "write cert.pem" put_cert _ w₁ w' tt h₁ in
      let w₂ = (put_cert w₁).1 in
      let put_key = c.files.write_file (c.files.join dir "key.pem") cert.key_pem in
      let (u₂, wrote_key, h₃) = sequence-step "write key.pem" put_key _ w₂ w' tt h₂ in
      let w₃ = (put_key w₂).1 in
      let put_ca = write_ca c dir cert.ca_cert_pem in
      let (u₃, wrote_ca, h₄) = continue-step (put_ca w₃).0 _ (put_ca w₃).1 h₃ in
      let w₄ = (put_ca w₃).1 in
      let (chain, same_cert, same_key) =
        write_ca-chain dir cert.ca_cert_pem w₃ w₄ (λ i. (wrote_ca i, w₄)) in
      let (bs, encoded, meta, cert', key', ca') = meta_written dir (to_meta c cert) w₄ w' h₄ in
      let cert_path = c.files.join dir "cert.pem" in
      let key_path = c.files.join dir "key.pem" in
      let ca_path = c.files.join dir "ca.pem" in
      load-files dir w' (to_meta c cert) bs cert.cert_pem cert.key_pem meta (codec bs encoded)
        (cert'
          ∙ same_cert
          ∙ l.read_other key_path cert_path cert.key_pem w₂ w₃ (λ e. l.cert_key dir (sym e))
              wrote_key
          ∙ l.read_write cert_path cert.cert_pem w₁ w₂ wrote_cert)
        (key' ∙ same_key ∙ l.read_write key_path cert.key_pem w₂ w₃ wrote_key)
      ∙ ap (λ (ca : List ℕ). (ok (record cert { ca_cert_pem = ca }), w'))
          (ap chain_of ca'
            ∙ chain
            ∙ ap (λ r. chain_after cert.ca_cert_pem (chain_of r))
                (l.read_other key_path ca_path cert.key_pem w₂ w₃ (l.key_ca dir) wrote_key
                  ∙ l.read_other cert_path ca_path cert.cert_pem w₁ w₂ (l.cert_ca dir) wrote_cert
                  ∙ l.read_mkdir dir ca_path w w₁ made))
