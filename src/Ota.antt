-- ===== src/Ota.antt =====
-- src/ota_update.c: the handler of an OTA pointer message, which may start a firmware download. The
-- JSON parser and the FOTA library are parameters.
pub mod Url
pub mod Accept
pub mod Delivery
pub mod Finish
mod Tests
use telenode.Prelude.{
  ℕ, ◌+◌, ◌^◌, Bool, true, false, List, [], ◌∷◌, Option, none, some, ltb, leb, not, if◌then◌else◌,
  length,
}
use telenode.Prelude.Errno.{Errno, Result, ok, err, success}
use telenode.Prelude.Texts.{codes, strcmp, strip_prefix, strchr}

abbrev pub max_url_len : ℕ
max_url_len = 200

abbrev pub max_host_len : ℕ
max_host_len = 128

-- `sizeof(json_buf)`
abbrev pub json_buf_len : ℕ
json_buf_len = 256

-- `struct ota_pointer`: a field that the message lacks is `none`, its bit in the parser's result 0.
pub record OtaPointer : Type 0 where
  pub version : Option (List ℕ)
  pub url : Option (List ℕ)

-- What goes through the output parameters of `split_url`, and `host_buf`
pub record Split : Type 0 where
  pub use_tls : Bool
  pub host : List ℕ
  pub file : List ℕ

abbrev pub https : List ℕ
https = codes "https://"

abbrev pub http : List ℕ
http = codes "http://"

-- `split_url` behind the scheme
abbrev pub split_rest : Bool → List ℕ → Option Split
split_rest use_tls rest = elim (strchr b'/' rest) [
  | none ↦ none
  | some (host, slash) ↦
      if leb max_host_len (length host)
      then none
      else some (record { use_tls = use_tls; host = host; file = slash })
]

-- `split_url`
unfoldable pub split_url : List ℕ → Option Split
split_url url = elim (strip_prefix https url) [
  | some rest ↦ split_rest true rest
  | none ↦ elim (strip_prefix http url) [ some rest ↦ split_rest false rest | none ↦ none ]
]

-- The arguments of `fota_download_start_with_image_type`; a `sec_tag` of -1 is `none`.
pub record Download : Type 0 where
  pub host : List ℕ
  pub file : List ℕ
  pub sec_tag : Option ℕ

-- CONFIG_FOTA_UPDATE_SERVER_HOSTNAME and CONFIG_FOTA_UPDATE_SEC_TAG
pub record OtaConfig : Type 0 where
  pub server_hostname : List ℕ
  pub sec_tag : ℕ

-- What the handler calls of the JSON library and the FOTA library. The state `F` of the second also
-- tells whether `fota_download_init` has been called.
pub record OtaOps (F : Type 0) : Type 0 where
  pub json_parse : List ℕ → Result OtaPointer
  pub provision : F → Result (Unit {0}) × F
  pub download_init : F → Result (Unit {0}) × F
  pub download_start : F → Download → Result (Unit {0}) × F

-- The test of the host name, skipped when none is configured.
abbrev pub is_allowed_host : OtaConfig → List ℕ → Bool
is_allowed_host config host =
    if ltb 0 (length config.server_hostname) then strcmp host config.server_hostname else true

abbrev pub download_of : OtaConfig → Split → Download
download_of config s = record {
  host = s.host;
  file = s.file;
  sec_tag = if s.use_tls then some config.sec_tag else none;
}

-- `on_ota_message` from the copy of the URL on, up to the start of the download
abbrev pub accept_url : OtaConfig → List ℕ → Option Download
accept_url config url = if leb max_url_len (length url) then none else elim (split_url url) [
  | none ↦ none
  | some s ↦ if is_allowed_host config s.host then some (download_of config s) else none
]

module _ {F : Type 0} (ops : OtaOps F) (config : OtaConfig) where
  -- The checks of `on_ota_message`: the download to start, or `none` where the handler returns.
  unfoldable pub accept_message : List ℕ → Option Download
  accept_message payload =
      if leb json_buf_len (length payload) then none else elim (ops.json_parse payload) [
        | err e ↦ none
        | ok parsed ↦ elim parsed.version [
          | none ↦ none
          | some version ↦ elim parsed.url [ none ↦ none | some url ↦ accept_url config url ]
        ]
      ]

  -- `on_ota_message`; a failure to start is only logged
  unfoldable pub on_ota_message : F → List ℕ → F
  on_ota_message f payload = elim (accept_message payload) [
    | none ↦ f
    | some d ↦ (ops.download_start f d).1
  ]

-- `ota_update_init`: its result, the libraries, and whether the handler was set.
unfoldable pub init : {F : Type 0} → OtaOps F → F → Result (Unit {0}) × F × Bool
init ops f =
    let (r, f') = ops.provision f in
    let (r', f'') = ops.download_init f' in
    elim r [
      | err e ↦ (err e, f', false)
      | ok done ↦ elim r' [ err e ↦ (err e, f'', false) | ok done' ↦ (success, f'', true) ]
    ]
