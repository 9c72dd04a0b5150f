-- ===== src/Ota/Url.antt =====
-- `split_url` of src/ota_update.c against the grammar of a URL: a scheme, a host without a slash, and
-- a path that starts with one.
use telenode.Prelude.{
  ℕ, ◌<◌, ◌≡◌, ◌↔◌, refl, ap, ◌∙◌, subst, Bool, true, false, List, ◌∷◌, ◌++◌, none, some, leb,
  length, Bool-cases, Option-cases, inl, inr, arith,
}
use telenode.Prelude.Texts.{
  strip_prefix, strchr, Lacks, strip_prefix-some, strchr-append, strchr-Found,
}
use telenode.Ota.{Split, https, http, max_host_len, split_rest, split_url}

abbrev pub scheme : Bool → List ℕ
scheme true = https
scheme false = http

-- A URL with its parts. The host, with its NUL, fits `host_buf`.
pub record IsUrl (url : List ℕ) (s : Split) : Type 0 where
  pub path : List ℕ
  pub file_starts : s.file ≡ b'/' ∷ path
  pub parts : url ≡ scheme s.use_tls ++ (s.host ++ s.file)
  pub host_lacks : Lacks b'/' s.host
  pub host_fits : length s.host < max_host_len

split_rest_sound :
    (tls : Bool) (rest : List ℕ) (s : Split)
    → split_rest tls rest ≡ some s
    → IsUrl (scheme tls ++ rest) s
split_rest_sound tls rest s h = elim (Option-cases (strchr b'/' rest)) [
  | inl none_found ↦ let k : split_rest tls rest ≡ none = rw (none_found, split_rest) refl in cc
  | inr (p, e) ↦ elim (Bool-cases (leb max_host_len (length p.0))) [
    | inl long ↦ let k : split_rest tls rest ≡ none = rw (e, split_rest, long) refl in cc
    | inr fits ↦
        let found : Split = record { use_tls = tls; host = p.0; file = p.1 } in
        let k : split_rest tls rest ≡ some found = rw (e, split_rest, fits) refl in
        let same : found ≡ s = cc in
        let f = strchr-Found b'/' rest p.0 p.1 e in
        subst (λ x. IsUrl (scheme tls ++ rest) x) same
          (record {
            path = f.rest;
            file_starts = f.from_starts;
            parts = ap (λ l. scheme tls ++ l) f.parts;
            host_lacks = f.before_lacks;
            host_fits = ground arith;
          })
  ]
]

split_rest_complete :
    (s : Split) (path : List ℕ)
    → s.file ≡ b'/' ∷ path
    → Lacks b'/' s.host
    → length s.host < max_host_len
    → split_rest s.use_tls (s.host ++ s.file) ≡ some s
split_rest_complete s path starts lacks fits =
    let e : strchr b'/' (s.host ++ s.file) ≡ some (s.host, s.file) =
      rw starts (strchr-append b'/' s.host path lacks) in
    let room : leb max_host_len (length s.host) ≡ false = ground arith in
    rw (e, split_rest, room) refl

split_url_sound : (url : List ℕ) (s : Split) → split_url url ≡ some s → IsUrl url s
unfolding split_url
split_url_sound url s h = elim (Option-cases (strip_prefix https url)) [
  | inr (rest, e) ↦
      let k : split_rest true rest ≡ some s = rw (← h, e) refl in
      rw (strip_prefix-some https url rest e) (split_rest_sound true rest s k)
  | inl other ↦ elim (Option-cases (strip_prefix http url)) [
    | inr (rest, e) ↦
        let k : split_rest false rest ≡ some s = rw (← h, other, e) refl in
        rw (strip_prefix-some http url rest e) (split_rest_sound false rest s k)
    | inl neither ↦ let k : split_url url ≡ none = rw (other, neither) refl in cc
  ]
]

split_url-scheme :
    (tls : Bool) (rest : List ℕ) (s : Split)
    → split_rest tls rest ≡ some s
    → split_url (scheme tls ++ rest) ≡ some s
unfolding split_url
split_url-scheme true rest s h = h
split_url-scheme false rest s h = h

split_url_complete : (url : List ℕ) (s : Split) → IsUrl url s → split_url url ≡ some s
unfolding split_url
split_url_complete url s u =
    ap split_url u.parts
    ∙ split_url-scheme s.use_tls (s.host ++ s.file) s
        (split_rest_complete s u.path u.file_starts u.host_lacks u.host_fits)

-- `split_url` succeeds on exactly the URLs with the scheme http or https, a host of fewer than 128
-- characters without a slash, and a path that starts with a slash; it returns these parts, and TLS
-- is used for https alone.
pub split_url_iff : (url : List ℕ) (s : Split) → (split_url url ≡ some s) ↔ IsUrl url s
split_url_iff url s = (split_url_sound url s, split_url_complete url s)
