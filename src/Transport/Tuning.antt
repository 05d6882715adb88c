-- ===== src/Transport/Tuning.antt =====
-- The configuration that reporting_transport/storage.py reads: how a file is uploaded, and where to.
-- The environment is a dict, and `int` of a text is a parameter.
use Prim.Native.String.{[], ◌∷◌}
use reporting_platform_local.Common.{
  ℕ, not, ◌||◌, Option, none, some, List, [], ◌∷◌, Dict, lookup, String, ◌*◌, ◌==◌, if◌then◌else◌,
  ltb, Result, ok, err, ◌>>=◌, ◌>>◌, refuse_if, nat_eq, string_eq, truthy, replace, ℤ, pos, negsuc,
}
use reporting_platform_local.Transport.Paths.{
  TransportError, contract_error, validate_prefix, split_path,
}

-- The limits of the object store
abbrev pub gib : ℕ
gib = 1024 * (1024 * 1024)

abbrev pub max_part_size : ℕ
max_part_size = 5 * gib

abbrev pub max_part_count : ℕ
max_part_count = 10000

abbrev pub max_single_put_size : ℕ
max_single_put_size = 5 * gib

abbrev pub max_object_size : ℕ
max_object_size = 5 * (1024 * gib)

-- `DEFAULT_MULTIPART_THRESHOLD` and `DEFAULT_MULTIPART_PART_SIZE`
abbrev eight_mib : ℤ
eight_mib = pos (8 * (1024 * 1024))

pub record UploadTuning : Type 0 where
  pub multipart_threshold : ℕ
  pub multipart_part_size : ℕ
  pub multipart_max_concurrency : ℕ
  pub checksum_mode : String

abbrev natural : ℤ → Result TransportError ℕ
natural (pos n) = ok n
natural (negsuc n) = err contract_error

-- `UploadTuning(...)` with its `__post_init__`, all of whose refusals are the same error
unfoldable pub upload_tuning : ℤ → ℤ → ℤ → String → Result TransportError UploadTuning
upload_tuning threshold part_size concurrency mode = natural part_size >>= λ part_size.
    refuse_if (ltb part_size 1) contract_error
    >> refuse_if (ltb max_part_size part_size) contract_error
    >> natural threshold
    >>= λ threshold.
        refuse_if (ltb max_single_put_size threshold) contract_error
        >> natural concurrency
        >>= λ concurrency.
            refuse_if (ltb concurrency 1) contract_error
            >> refuse_if (not (mode == "auto" || mode == "full_download")) contract_error
            >> ok (record {
              multipart_threshold = threshold;
              multipart_part_size = part_size;
              multipart_max_concurrency = concurrency;
              checksum_mode = mode;
            })

pub record StorageConfig : Type 0 where
  pub bucket : String
  pub endpoint_url : Option String
  pub region : Option String
  pub received_prefix : String
  pub upload : UploadTuning

-- `StorageConfig(...)` with its `__post_init__`
unfoldable pub storage_config :
    String
    → Option String
    → Option String
    → String
    → UploadTuning
    → Result TransportError StorageConfig
storage_config bucket endpoint_url region received_prefix upload =
    refuse_if (not (truthy bucket)) contract_error
    >> validate_prefix (some received_prefix)
    >>= λ _. ok (record {
      bucket = bucket;
      endpoint_url = endpoint_url;
      region = region;
      received_prefix = received_prefix;
      upload = upload;
    })

-- `a or b` of two values that may be missing
abbrev or_else : Option String → Option String → Option String
or_else none other = other
or_else (some s) other = if truthy s then some s else other

abbrev with_default : Option String → String → String
with_default none default = default
with_default (some s) default = s

abbrev first_part : List String → String
first_part [] = []
first_part (part ∷ parts) = part

-- `_bucket_from_warehouse`
unfoldable pub bucket_from_warehouse : Option String → Option String
bucket_from_warehouse none = none
bucket_from_warehouse (some warehouse) =
    if truthy warehouse
    then some (first_part (split_path (replace "s3://" "" (replace "s3a://" "" warehouse))))
    else none

module _ (int : String → Option ℤ) (environ : Dict String String) where
  abbrev number : Option ℤ → Result TransportError ℤ
  number none = err contract_error
  number (some n) = ok n

  abbrev int_or : Option String → ℤ → Result TransportError ℤ
  int_or none default = ok default
  int_or (some raw) default = if truthy raw then number (int raw) else ok default

  -- `_int_env`
  unfoldable pub int_env : String → ℤ → Result TransportError ℤ
  int_env name default = int_or (lookup name environ) default

  -- `UploadTuning.from_env`
  unfoldable pub upload_tuning_from_env : Result TransportError UploadTuning
  upload_tuning_from_env =
      int_env "REPORTING_TRANSPORT_MULTIPART_THRESHOLD_BYTES" eight_mib >>= λ threshold.
      int_env "REPORTING_TRANSPORT_MULTIPART_PART_SIZE_BYTES" eight_mib >>= λ part_size.
      int_env "REPORTING_TRANSPORT_MULTIPART_MAX_CONCURRENCY" (pos 4) >>= λ concurrency.
      upload_tuning threshold part_size concurrency
        (with_default (lookup "REPORTING_TRANSPORT_CHECKSUM_MODE" environ) "auto")

  abbrev require_bucket : Option String → Result TransportError String
  require_bucket none = err contract_error
  require_bucket (some bucket) = refuse_if (not (truthy bucket)) contract_error >> ok bucket

  -- `StorageConfig.from_env`, with `_env_values`
  unfoldable pub storage_config_from_env : Result TransportError StorageConfig
  storage_config_from_env =
      require_bucket (
        or_else (lookup "REPORTING_TRANSPORT_BUCKET" environ)
          (bucket_from_warehouse (lookup "REPORTING_WAREHOUSE" environ)))
      >>= λ bucket. upload_tuning_from_env >>= λ upload.
          storage_config bucket
            (or_else (lookup "REPORTING_TRANSPORT_S3_ENDPOINT" environ)
              (lookup "S3_ENDPOINT" environ))
            (or_else (lookup "REPORTING_TRANSPORT_REGION" environ) (lookup "AWS_REGION" environ))
            (with_default
              (or_else (lookup "REPORTING_TRANSPORT_RECEIVED_PREFIX" environ)
                (some (with_default (lookup "REPORTING_RECEIVED_PREFIX" environ) "received")))
              "received")
            upload
