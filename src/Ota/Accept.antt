-- ===== src/Ota/Accept.antt =====
-- Which messages `on_ota_message` of src/ota_update.c starts a download for.
use telenode.Prelude.{
  ℕ, ◌<◌, ◌≡◌, ◌↔◌, ◌⊎◌, refl, sym, ap, ◌∙◌, if◌then◌else◌, true, false, List, [], ◌∷◌, none, some,
  ltb, leb, length, Bool-cases, Option-cases, inl, inr, arith,
}
use telenode.Prelude.Errno.{ok, Result-cases}
use telenode.Prelude.Texts.{strcmp, strcmp-same, strcmp_refl}
use telenode.Ota.{
  OtaOps, OtaConfig, OtaPointer, Split, Download, max_url_len, json_buf_len, is_allowed_host,
  download_of, accept_url, accept_message, on_ota_message, split_url,
}
use telenode.Ota.Url.{IsUrl, split_url_iff}

abbrev pub pointer : List ℕ → List ℕ → OtaPointer
pointer version url = record { version = some version; url = some url }

empty_of : (s : List ℕ) → ltb 0 (length s) ≡ false → s ≡ []
empty_of [] h = refl
empty_of (c ∷ s) h = absurd (ground arith)

is_allowed_host-true :
    (config : OtaConfig) (host : List ℕ)
    → is_allowed_host config host ≡ true
    → (config.server_hostname ≡ []) ⊎ (host ≡ config.server_hostname)
is_allowed_host-true config host h = elim (Bool-cases (ltb 0 (length config.server_hostname))) [
  | inr empty ↦ inl (empty_of config.server_hostname empty)
  | inl named ↦ inr (strcmp-same host config.server_hostname (rw (← h, named) refl))
]

is_allowed_host-same :
    (config : OtaConfig) (host : List ℕ)
    → (config.server_hostname ≡ []) ⊎ (host ≡ config.server_hostname)
    → is_allowed_host config host ≡ true
is_allowed_host-same config host (inl empty) = rw empty refl
is_allowed_host-same config host (inr same) =
    let k : strcmp host config.server_hostname ≡ true =
      rw same (strcmp_refl config.server_hostname) in
    elim (Bool-cases (ltb 0 (length config.server_hostname))) [
      | inl named ↦ rw (named, k) refl
      | inr empty ↦ rw empty refl
    ]

-- What is asked of a URL and of the download that it starts.
pub record IsAcceptedUrl (config : OtaConfig) (url : List ℕ) (d : Download) : Type 0 where
  pub split : Split
  pub url_fits : length url < max_url_len
  pub is_url : IsUrl url split
  pub host_allowed : (config.server_hostname ≡ []) ⊎ (split.host ≡ config.server_hostname)
  pub asks_host : d.host ≡ split.host
  pub asks_file : d.file ≡ split.file
  pub with_tls : split.use_tls ≡ true → d.sec_tag ≡ some config.sec_tag
  pub without_tls : split.use_tls ≡ false → d.sec_tag ≡ none

-- The download that is asked for, from its parts
download_of-parts :
    (config : OtaConfig) (s : Split) (d : Download)
    → d.host ≡ s.host
    → d.file ≡ s.file
    → (s.use_tls ≡ true → d.sec_tag ≡ some config.sec_tag)
    → (s.use_tls ≡ false → d.sec_tag ≡ none)
    → download_of config s ≡ d
download_of-parts config s d host file tls plain =
    let tag : d.sec_tag ≡ (if s.use_tls then some config.sec_tag else none) =
      elim (Bool-cases s.use_tls) [ inl on ↦ rw on (tls on) | inr off ↦ rw off (plain off) ] in
    λ i. record { host = sym host i; file = sym file i; sec_tag = sym tag i }

accept_url_sound :
    (config : OtaConfig) (url : List ℕ) (d : Download)
    → accept_url config url ≡ some d
    → IsAcceptedUrl config url d
accept_url_sound config url d h = elim (Bool-cases (leb max_url_len (length url))) [
  | inl long ↦ let k : accept_url config url ≡ none = rw (long, accept_url) refl in cc
  | inr fits ↦ elim (Option-cases (split_url url)) [
    | inl bad ↦ let k : accept_url config url ≡ none = rw (fits, accept_url, bad) refl in cc
    | inr (s, e) ↦ elim (Bool-cases (is_allowed_host config s.host)) [
      | inr other ↦
          let k : accept_url config url ≡ none = rw (fits, accept_url, e, other) refl in cc
      | inl allowed ↦
          let k : accept_url config url ≡ some (download_of config s) =
            rw (fits, accept_url, e, allowed) refl in
          let same : d ≡ download_of config s = cc in
          record {
            split = s;
            url_fits = ground arith;
            is_url = (split_url_iff url s).0 e;
            host_allowed = is_allowed_host-true config s.host allowed;
            asks_host = ap (λ x. x.host) same;
            asks_file = ap (λ x. x.file) same;
            with_tls = λ on. ap (λ x. x.sec_tag) same ∙ rw on refl;
            without_tls = λ off. ap (λ x. x.sec_tag) same ∙ rw off refl;
          }
    ]
  ]
]

accept_url_complete :
    (config : OtaConfig) (url : List ℕ) (d : Download)
    → IsAcceptedUrl config url d
    → accept_url config url ≡ some d
accept_url_complete config url d a =
    let fits : leb max_url_len (length url) ≡ false = ground arith in
    let e = (split_url_iff url a.split).1 a.is_url in
    let allowed = is_allowed_host-same config a.split.host a.host_allowed in
    let same =
      download_of-parts config a.split d a.asks_host a.asks_file a.with_tls a.without_tls in
    rw (fits, accept_url, e, allowed) (ap some same)

module _ {F : Type 0} (ops : OtaOps F) (config : OtaConfig) where
  -- What is asked of a message and of the download that it starts: short enough, with both fields,
  -- and with a URL that is accepted.
  pub record IsAccepted (payload : List ℕ) (d : Download) : Type 0 where
    pub version : List ℕ
    pub url : List ℕ
    pub payload_fits : length payload < json_buf_len
    pub parsed : ops.json_parse payload ≡ ok (pointer version url)
    pub accepted : IsAcceptedUrl config url d

  accept_message_sound :
      (payload : List ℕ) (d : Download)
      → accept_message ops config payload ≡ some d
      → IsAccepted payload d
  unfolding accept_message
  accept_message_sound payload d h = elim (Bool-cases (leb json_buf_len (length payload))) [
    | inl long ↦ let k : accept_message ops config payload ≡ none = rw long refl in cc
    | inr fits ↦ elim (Result-cases (ops.json_parse payload)) [
      | inr (x, e) ↦ let k : accept_message ops config payload ≡ none = rw (fits, e) refl in cc
      | inl (parsed, e) ↦ elim (Option-cases parsed.version) [
        | inl v ↦ let k : accept_message ops config payload ≡ none = rw (fits, e, v) refl in cc
        | inr (version, v) ↦ elim (Option-cases parsed.url) [
          | inl u ↦ let k : accept_message ops config payload ≡ none = rw (fits, e, v, u) refl in cc
          | inr (url, u) ↦ record {
            version = version;
            url = url;
            payload_fits = ground arith;
            parsed = e ∙ (λ i. ok (record { version = v i; url = u i }));
            accepted = accept_url_sound config url d (rw (← h, fits, e, v, u) refl);
          }
        ]
      ]
    ]
  ]

  accept_message_complete :
      (payload : List ℕ) (d : Download)
      → IsAccepted payload d
      → accept_message ops config payload ≡ some d
  unfolding accept_message
  accept_message_complete payload d a =
      let short : leb json_buf_len (length payload) ≡ false =
        let p = a.payload_fits in ground arith in
      rw (short, a.parsed) (accept_url_complete config a.url d a.accepted)

  -- A download is started for exactly the messages below 256 bytes that have both fields and a URL
  -- below 200 characters, well formed, whose host is the configured one where one is configured. It
  -- asks that host for that path, with the TLS credentials if and only if the scheme is https.
  pub accept_message_iff :
      (payload : List ℕ) (d : Download)
      → (accept_message ops config payload ≡ some d) ↔ IsAccepted payload d
  accept_message_iff payload d = (accept_message_sound payload d, accept_message_complete payload d)

  -- Whatever the message, `on_ota_message` leaves the FOTA library alone or makes a single call to
  -- start a download, one that the message is accepted for.
  pub on_ota_message_safe :
      (f : F) (payload : List ℕ)
      → (on_ota_message ops config f payload ≡ f)
        ⊎ ((d : Download) × IsAccepted payload d
            × (on_ota_message ops config f payload ≡ (ops.download_start f d).1))
  unfolding on_ota_message
  on_ota_message_safe f payload = elim (Option-cases (accept_message ops config payload)) [
    | inl refused ↦ inl (rw (refused, on_ota_message) refl)
    | inr (d, e) ↦ inr (d, accept_message_sound payload d e, rw (e, on_ota_message) refl)
  ]
