-- ===== src/Api/Deployment.antt =====
-- What a node is sent when it wakes, `deployFunction` in tinyFaaS-ext/pkg/cluster/registry.go, is what
-- the upload endpoint in tinyFaaS-ext/cmd/manager/main.go takes it for.
use Prim.Native.Char.{char}
use mathlib.Core.List.{append-nil, append_assoc}
use yuliya_bachelorarbeit.Base.{
  ℕ, String, none, some, List, [], ◌∷◌, ◌++◌, map, ◌≡◌, refl, sym, subst, ap, ◌∙◌,
}
use yuliya_bachelorarbeit.Base.Dict.{Dict, insert}
use yuliya_bachelorarbeit.Base.Io.{fail}
use yuliya_bachelorarbeit.Base.Entries.{Plain, Plain-lookup, Plain-head, insert-new, cut-entry}
use yuliya_bachelorarbeit.Functions.{FunctionDef}
use yuliya_bachelorarbeit.Docker.{env_entry}
use yuliya_bachelorarbeit.Manager.{Host, Spec, State}
use yuliya_bachelorarbeit.Manager.Service.{Service, not_decoded, create_and_link, upload}
use yuliya_bachelorarbeit.Api.{UploadBody, read_entries, upload_handler, responding}

-- The body of `deployFunction`. `k+"="+v` is what `%s=%s` prints.
unfoldable pub deploy_request : (List ℕ → String) → String → FunctionDef → UploadBody
deploy_request encode_base64 name def = record {
  name = name;
  env = def.env;
  threads = def.threads;
  zip = encode_base64 def.zip;
  envs = map env_entry def.envs;
}

-- The entries are read as the map that they were made of.
pub read_entries-env_entry :
    (seen envs : Dict String)
    → Plain b'=' (seen ++ envs)
    → read_entries (map env_entry envs) seen ≡ seen ++ envs
unfolding read_entries
read_entries-env_entry seen [] plain = sym (append-nil seen)
read_entries-env_entry seen ((k, v) ∷ envs) plain =
    let new = Plain-lookup b'=' k v seen envs plain in
    let read = cut-entry (char b'=' tt) "=" k v (Plain-head b'=' (k, v) seen envs plain) refl in
    let moved = append_assoc seen ((k, v) ∷ []) envs in
    let rest =
      read_entries-env_entry (seen ++ (k, v) ∷ []) envs (subst (Plain b'=') (sym moved) plain) in
    subst
      (λ r.
        ◌≡◌ {A = Dict String}
          (elim r [
            | none ↦ read_entries (map env_entry envs) seen
            | some x ↦ read_entries (map env_entry envs) (insert x.0 x.1 seen)
          ])
          (seen ++ (k, v) ∷ envs))
      (sym read) (rw (insert-new k v seen new) (rest ∙ moved))

module _ {W : Type 0} (h : Host W) (s : Service W) where
  upload-decoded :
      (name : String) (spec : Spec) (zipped : String) (zip : List ℕ)
      → s.decode_base64 zipped ≡ some zip
      → upload h s name spec zipped ≡ create_and_link h s name spec zip ""
  unfolding upload
  upload-decoded name spec zipped zip decoded =
      ap (λ z. elim z [ none ↦ fail not_decoded | some zip ↦ create_and_link h s name spec zip "" ])
        decoded

  -- A node that is sent a function creates it as the leader knows it, and answers accordingly, if
  -- base64 decodes what it encodes and no key of the environment has a `=`.
  pub upload_handler-deploy_request :
      (encode_base64 : List ℕ → String)
      → ((zip : List ℕ) → s.decode_base64 (encode_base64 zip) ≡ some zip)
      → (name : String) (def : FunctionDef) → Plain b'=' def.envs
      → (st : State h)
      → upload_handler h s "POST" (some (deploy_request encode_base64 name def)) st
        ≡ responding h s 500
            (λ res. res)
            (create_and_link h s name
              (record { env = def.env; threads = def.threads; envs = def.envs })
              def.zip
              "")
            st
  unfolding upload_handler deploy_request
  upload_handler-deploy_request encode_base64 decodes name def plain st =
      let envs =
        ap
          (λ envs.
            responding h s 500 (λ res. res)
              (upload h s name (record { env = def.env; threads = def.threads; envs = envs })
                (encode_base64 def.zip))
              st)
          (read_entries-env_entry [] def.envs plain) in
      let act =
        upload-decoded name (record { env = def.env; threads = def.threads; envs = def.envs })
          (encode_base64 def.zip) def.zip (decodes def.zip) in
      envs ∙ ap (λ act. responding h s 500 (λ res. res) act st) act
