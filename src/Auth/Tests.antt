-- ===== src/Auth/Tests.antt =====
-- Credentials of a small disk, and a response that logs its calls.
use faas_provider.Prelude.{
  ◌≡◌, ◌≢◌, ◌⊎◌, refl, Option, some, String, List, [], ◌∷◌, str_eq, eq_iff, if◌then◌else◌, ok, err,
  errorf, arith, concat,
}
use faas_provider.Auth.{
  BasicAuthCredentials, ReadBasicAuthFromDisk, Disk, Writer, user_path, password_path, read, refuse,
  decorate_with_basic_auth,
}
use faas_provider.Auth.Access.{decorate_with_basic_auth_lem}

program : Unit {0}
unfolding user_path password_path read refuse decorate_with_basic_auth
program = tt

-- The latest call first.
abbrev logged : Writer (List String)
logged = record {
  set_header = λ k v s. k ∷ s;
  write_header = λ code s. "status" ∷ s;
  write = λ text s. text ∷ s;
}

abbrev handler : List String → List String
handler s = "handled" ∷ s

abbrev admin : BasicAuthCredentials
admin = record { user = "admin"; password = "secret" }

refused :
    decorate_with_basic_auth logged handler admin (some ("admin", "guess")) []
    ≡ "invalid credentials" ∷ "status" ∷ "WWW-Authenticate" ∷ []
unfolding program
refused = refl

abbrev login : Option (String × String)
login = some ("admin", "secret")

decorate_with_basic_auth_lem_example :
    let out = decorate_with_basic_auth logged handler admin (login) [] in
    ((login ≡ some (admin.user, admin.password)) × (out ≡ handler []))
    ⊎ ((login ≢ some (admin.user, admin.password)) × (out ≡ refuse logged []))
decorate_with_basic_auth_lem_example = decorate_with_basic_auth_lem logged handler admin (login) []

abbrev disk : Disk
disk = record {
  read_file = λ path.
      if str_eq path "/run/secrets/basic-auth-user"
      then ok "admin"
      else if str_eq path "/run/secrets/key"
      then ok "secret"
      else err (errorf "no such file");
  join = λ a b. concat a (concat "/" b);
  trim_space = λ s. s;
}

abbrev reader : ReadBasicAuthFromDisk
reader = record {
  secret_mount_path = "/run/secrets";
  user_filename = "";
  password_filename = "key";
}

given : reader.secret_mount_path ≢ ""
given = ground (arith, eq_iff "/run/secrets" "")

got_user : disk.read_file (user_path disk reader) ≡ ok "admin"
unfolding program
got_user = refl

got_password : disk.read_file (password_path disk reader) ≡ ok "secret"
unfolding program
got_password = refl
