-- ===== src/Auth.antt =====
-- auth/basic_auth.go and auth/credentials.go: the credentials, read from files, and the check that
-- guards a handler.
pub mod Access
mod Tests
use faas_provider.Prelude.{
  ℕ, Bool, true, false, not, ◌&&◌, ◌||◌, Option, none, some, String, str_eq, if◌then◌else◌, Result,
  ok, err, errorf, concat,
}

pub record BasicAuthCredentials : Type 0 where
  pub user : String
  pub password : String

pub record ReadBasicAuthFromDisk : Type 0 where
  pub secret_mount_path : String
  pub user_filename : String
  pub password_filename : String

-- What the reader calls: `ioutil.ReadFile`, `path.Join` and `strings.TrimSpace`.
pub record Disk : Type 0 where
  pub read_file : String → Result String
  pub join : String → String → String
  pub trim_space : String → String

-- The methods of a response's writer that the check calls, over the state of the response.
pub record Writer (S : Type 0) : Type 0 where
  pub set_header : String → String → S → S
  pub write_header : ℕ → S → S
  pub write : String → S → S

unfoldable pub user_path : Disk → ReadBasicAuthFromDisk → String
user_path disk r =
    disk.join r.secret_mount_path
      (if str_eq r.user_filename "" then "basic-auth-user" else r.user_filename)

unfoldable pub password_path : Disk → ReadBasicAuthFromDisk → String
password_path disk r =
    disk.join r.secret_mount_path
      (if str_eq r.password_filename "" then "basic-auth-password" else r.password_filename)

-- The reads of the two files, the user's first.
read_files : Disk → ReadBasicAuthFromDisk → Result BasicAuthCredentials
unfolding user_path password_path
read_files disk r = elim (disk.read_file (user_path disk r)) [
  | err e ↦ err (errorf (concat "unable to load " (user_path disk r)))
  | ok user ↦ elim (disk.read_file (password_path disk r)) [
    | err e ↦ err (errorf (concat "Unable to load " (password_path disk r)))
    | ok password ↦ ok (record { user = disk.trim_space user; password = disk.trim_space password })
  ]
]

unfoldable pub read : Disk → ReadBasicAuthFromDisk → Result BasicAuthCredentials
unfolding read_files
read disk r =
    if str_eq r.secret_mount_path ""
    then err (errorf "invalid SecretMountPath specified for reading secrets")
    else read_files disk r

module _ {S : Type 0} (w : Writer S) where
  unfoldable pub refuse : S → S
  refuse s =
      w.write "invalid credentials"
        (w.write_header 401 (w.set_header "WWW-Authenticate" "Basic realm=\"Restricted\"" s))

  -- What `r.BasicAuth()` returns is `none` where it is not ok. `subtle.ConstantTimeCompare` is 1
  -- exactly at equal texts.
  unfoldable pub decorate_with_basic_auth :
      (S → S) → BasicAuthCredentials → Option (String × String) → S → S
  unfolding refuse
  decorate_with_basic_auth next credentials none s = refuse s
  decorate_with_basic_auth next credentials (some (user, password)) s =
      if not (str_eq user credentials.user) || not (str_eq credentials.password password)
      then refuse s
      else next s
