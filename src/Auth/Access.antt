-- ===== src/Auth/Access.antt =====
-- Who passes the check.
use faas_provider.Prelude.{
  ◌≡◌, ◌≢◌, ◌⊎◌, inl, inr, refl, Option, none, some, String, str_eq, eq_iff, eq_refl, ok, arith,
  Bool-cases,
}
use faas_provider.Auth.{
  BasicAuthCredentials, ReadBasicAuthFromDisk, Disk, Writer, user_path, password_path, read, refuse,
  decorate_with_basic_auth,
}

module _ {S : Type 0} (w : Writer S) where
  -- The guarded handler runs exactly on a request with the user and the password of the
  -- credentials; every other request is refused, and the handler does not run on it.
  pub decorate_with_basic_auth_lem :
      (next : S → S) (c : BasicAuthCredentials) (given : Option (String × String)) (s : S)
      → let out = decorate_with_basic_auth w next c given s in
        ((given ≡ some (c.user, c.password)) × (out ≡ next s))
        ⊎ ((given ≢ some (c.user, c.password)) × (out ≡ refuse w s))
  unfolding decorate_with_basic_auth
  decorate_with_basic_auth_lem next c none s = inr ((λ e. ground (arith, e)), refl)
  decorate_with_basic_auth_lem next c (some (user, password)) s =
      elim (Bool-cases (str_eq user c.user)) [
        | inr other ↦ inr (
          (λ e. ground (arith, e, other, eq_iff user c.user)),
          rw (other, decorate_with_basic_auth) refl,
        )
        | inl same ↦ elim (Bool-cases (str_eq c.password password)) [
          | inr other ↦ inr (
            (λ e. ground (arith, e, other, eq_iff c.password password)),
            rw (same, other, decorate_with_basic_auth) refl,
          )
          | inl agrees ↦ inl (
            rw ((eq_iff user c.user).0 same, (eq_iff c.password password).0 agrees) refl,
            rw (same, agrees, decorate_with_basic_auth) refl,
          )
        ]
      ]

  -- If a path to the secrets is given and both files can be read, the credentials are read, and a
  -- request with what the files hold, trimmed, passes the check.
  pub read-decorate_with_basic_auth :
      (disk : Disk) (r : ReadBasicAuthFromDisk) (user password : String) (next : S → S) (s : S)
      → r.secret_mount_path ≢ ""
      → disk.read_file (user_path disk r) ≡ ok user
      → disk.read_file (password_path disk r) ≡ ok password
      → (c : BasicAuthCredentials) × (read disk r ≡ ok c)
        × (decorate_with_basic_auth w next c
              (some (disk.trim_space user, disk.trim_space password))
              s
            ≡ next s)
  unfolding read decorate_with_basic_auth
  read-decorate_with_basic_auth disk r user password next s given got_user got_password = (
    record { user = disk.trim_space user; password = disk.trim_space password },
    ground (arith, eq_iff r.secret_mount_path "", got_user, got_password),
    rw (eq_refl (disk.trim_space user), eq_refl (disk.trim_space password)) refl,
  )
