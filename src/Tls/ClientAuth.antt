-- ===== src/Tls/ClientAuth.antt =====
-- src/tls/client_auth.rs, and the options of TLS in src/tls/mod.rs and src/options.rs that load
-- certificates. rustls and its parser of PEM files are a parameter; certificates and keys are bytes.
use lmc_rs.Prelude.{
  ℕ, zero, suc, ◌<◌, ◌≡◌, refl, sym, ap, ◌∙◌, Option, none, some, List, [], ◌∷◌, length, ltb,
  if◌then◌else◌, arith,
}
use lmc_rs.Options.{Options, OptionsT, enable_tls_ex}

pub data CryptoBytes : Type 0 where
  der pem : List ℕ → CryptoBytes

pub data CryptoError : Type 0 where
  bad_cert io_error no_valid_items_in_pem invalid_private_key : CryptoError

-- `Result<A, CryptoError>`
pub data Loaded (A : Type 0) : Type 0 where
  ok : A → Loaded A
  err : CryptoError → Loaded A

infixl 5 ◌>>=◌
abbrev pub ◌>>=◌ : {A B : Type 0} → Loaded A → (A → Loaded B) → Loaded B
ok a >>= f = f a
err e >>= f = err e

-- `.map_err(..)?` and `ok_or`; `none` is the error.
abbrev pub or_error : {A : Type 0} → CryptoError → Option A → Loaded A
or_error e none = err e
or_error e (some a) = ok a

-- `rustls_pemfile::Item`
pub data Item : Type 0 where
  pkcs8_key rsa_key ec_key : List ℕ → Item
  other_item : Item

-- A reader of a PEM file is the bytes that are left; every item takes some. `read_one` gives `none` for an
-- error, and no item at the end. `add_parsable_certificates` tells how many certificates it has added.
pub record Crypto : Type 1 where
  pub Key : Type 0
  pub Store : Type 0
  pub Config : Type 0
  pub certs : List ℕ → Option (List (List ℕ))
  pub read_one : List ℕ → Option (Option Item × List ℕ)
  pub any_supported_type : List ℕ → Option Key
  pub load_native_certs : Option (List (List ℕ))
  pub empty_store : Store
  pub add_parsable_certificates : List (List ℕ) → Store → ℕ × Store
  pub add_anchor : List ℕ → Store → Option Store
  pub with_root_certificates : Store → Config
  pub without_verification : Config
  pub with_resolver : List (List ℕ) × Key → Config → Config
  pub read_one_takes :
      (bytes rest : List ℕ) (item : Item)
      → read_one bytes ≡ some (some item, rest)
      → length rest < length bytes

-- `Some(x)` for the three kinds of keys.
abbrev pub key_of : Item → Option (List ℕ)
key_of (pkcs8_key x) = some x
key_of (rsa_key x) = some x
key_of (ec_key x) = some x
key_of other_item = none

-- `if opt_der.is_none() { opt_der = der; }`
abbrev pub or_first : Option (List ℕ) → Option (List ℕ) → Option (List ℕ)
or_first none found = found
or_first (some x) found = some x

module _ (c : Crypto) where
  abbrev pub load_certs : CryptoBytes → Loaded (List (List ℕ))
  load_certs (der bytes) = ok (bytes ∷ [])
  load_certs (pem bytes) = or_error io_error (c.certs bytes)

  -- A round of the loop over `read_one`.
  abbrev pub after_read :
      (List ℕ → Option (List ℕ) → Loaded (Option (List ℕ)))
      → Option (List ℕ)
      → Option (Option Item × List ℕ)
      → Loaded (Option (List ℕ))
  after_read again opt_der none = err io_error
  after_read again opt_der (some (none, rest)) = ok opt_der
  after_read again opt_der (some (some item, rest)) = again rest (or_first opt_der (key_of item))

  -- Its fuel is the number of bytes and one more, since every item takes some, so that the first clause is
  -- never met.
  unfoldable pub scan : ℕ → List ℕ → Option (List ℕ) → Loaded (Option (List ℕ))
  scan zero bytes opt_der = ok opt_der
  scan (suc fuel) bytes opt_der = after_read (scan fuel) opt_der (c.read_one bytes)

  unfoldable pub load_key : CryptoBytes → Loaded (List ℕ)
  unfolding scan
  load_key (der bytes) = ok bytes
  load_key (pem bytes) =
      scan (suc (length bytes)) bytes none >>= λ found. or_error no_valid_items_in_pem found

  -- The certificates and the key of a `ClientCertResolver`, which always answers with them.
  unfoldable pub from_bytes : CryptoBytes → CryptoBytes → Loaded (List (List ℕ) × c.Key)
  unfolding load_key
  from_bytes cert_bytes pk_bytes = do
    cert ← load_certs cert_bytes
    pk_der ← load_key pk_bytes
    key ← or_error invalid_private_key (c.any_supported_type pk_der)
    ok (cert, key)

  unfoldable pub enable_tls_client_auth :
      CryptoBytes → CryptoBytes → OptionsT c.Config → Loaded (OptionsT c.Config)
  unfolding from_bytes
  enable_tls_client_auth cert_bytes pk_bytes o = do
    resolver ← from_bytes cert_bytes pk_bytes
    ok (record o { connection_cfg = c.with_resolver resolver o.connection_cfg })

  -- `none` is an error of the system's certificates.
  unfoldable pub enable_tls : Options → Option (OptionsT c.Config)
  unfolding enable_tls_ex
  enable_tls o = elim c.load_native_certs [
    | none ↦ none
    | some certs ↦ some (
        enable_tls_ex (c.with_root_certificates (c.add_parsable_certificates certs c.empty_store).1)
          o)
  ]

  unfoldable pub enable_dangerous_non_verified_tls : Options → OptionsT c.Config
  unfolding enable_tls_ex
  enable_dangerous_non_verified_tls o = enable_tls_ex c.without_verification o

  abbrev pub some_added : ℕ × c.Store → Loaded c.Store
  some_added (added, store) = if ltb added 1 then err no_valid_items_in_pem else ok store

  abbrev pub custom_store : CryptoBytes → Loaded c.Store
  custom_store (der bytes) = or_error bad_cert (c.add_anchor bytes c.empty_store)
  custom_store (pem bytes) = or_error io_error (c.certs bytes) >>= λ certs.
      some_added (c.add_parsable_certificates certs c.empty_store)

  unfoldable pub enable_tls_custom_ca_cert : CryptoBytes → Options → Loaded (OptionsT c.Config)
  unfolding enable_tls_ex
  enable_tls_custom_ca_cert ca_cert_bytes o =
      custom_store ca_cert_bytes >>= λ store. ok (enable_tls_ex (c.with_root_certificates store) o)

  -- The items that a PEM file holds up to its end.
  pub data Holds : List ℕ → List Item → Type 0 where
    no_more : (bytes rest : List ℕ) → c.read_one bytes ≡ some (none, rest) → Holds bytes []
    next :
        (bytes rest : List ℕ) (item : Item) (items : List Item)
        → c.read_one bytes ≡ some (some item, rest)
        → Holds rest items
        → Holds bytes (item ∷ items)

  -- The first key among items.
  abbrev pub first_key : List Item → Option (List ℕ)
  first_key [] = none
  first_key (item ∷ items) = or_first (key_of item) (first_key items)

  or_first_assoc : (a b d : Option (List ℕ)) → or_first (or_first a b) d ≡ or_first a (or_first b d)
  or_first_assoc none b d = refl
  or_first_assoc (some x) b d = refl

  or_first-none : (a : Option (List ℕ)) → or_first a none ≡ a
  or_first-none none = refl
  or_first-none (some x) = refl

  scan-Holds :
      (fuel : ℕ) (bytes : List ℕ) (items : List Item) (opt_der : Option (List ℕ))
      → Holds bytes items
      → length bytes < fuel
      → scan fuel bytes opt_der ≡ ok (or_first opt_der (first_key items))
  unfolding scan
  scan-Holds zero bytes items opt_der h enough = absurd (omega arith)
  scan-Holds (suc fuel) _ _ opt_der (no_more bytes rest e) enough =
      ap (after_read (scan fuel) opt_der) e ∙ ap ok (sym (or_first-none opt_der))
  scan-Holds (suc fuel) _ _ opt_der (next bytes rest item items e h) enough =
      ap (after_read (scan fuel) opt_der) e
      ∙ scan-Holds fuel rest items (or_first opt_der (key_of item)) h
          (omega (arith, c.read_one_takes bytes rest item e))
      ∙ ap ok (or_first_assoc opt_der (key_of item) (first_key items))

  -- From a PEM file that is read without an error, whatever else it holds, the private key is the first
  -- one in it; a file without a key is refused.
  pub load_key-Holds :
      (bytes : List ℕ) (items : List Item)
      → Holds bytes items
      → load_key (pem bytes) ≡ or_error no_valid_items_in_pem (first_key items)
  unfolding load_key
  load_key-Holds bytes items h =
      ap (λ r. r >>= λ found. or_error no_valid_items_in_pem found)
        (scan-Holds (suc (length bytes)) bytes items none h (omega arith))
