-- ===== src/AddUser/Tests.antt =====
-- Runs of data/sqmp_add_user.c, with a hash that is its argument.
use squimpchat.Base.{
  ℕ, ◌≡◌, refl, true, ok, false, Option, some, List, [], ◌∷◌, ◌++◌, codes, arith, bytes_eq,
}
use squimpchat.Server.Users.{fgets_lines, c_string, split_colon, verify_credentials}
use squimpchat.AddUser.{forbidden, exists_user, has_user, user_line, content, add_user}
use squimpchat.AddUser.Colons.{add_user-colon}
use squimpchat.AddUser.RoundTrip.{IsUsername, IsHash, Registered, add_user-Registered}

-- 32 bytes, so that they can stand for their hash.
abbrev pub secret : List ℕ
secret = codes "0123456789abcdef0123456789abcdef"

-- A file with a line that holds no user.
abbrev pub some_file : Option (List ℕ)
some_file = some (codes "# users" ++ 10 ∷ [])

pub secret-IsHash : IsHash secret
secret-IsHash = record { size = refl; bytes = refl }

pub eve-IsUsername : IsUsername (codes "eve")
unfolding forbidden bytes_eq
eve-IsUsername = record {
  plain = refl;
  no_colon = refl;
  fits = omega arith;
  some_byte = omega arith;
  allowed = refl;
}

pub eve_new : has_user (codes "eve") some_file ≡ false
unfolding exists_user fgets_lines c_string split_colon
eve_new = refl

add_user-Registered_example : Registered (λ s. s) (codes "eve") secret some_file
add_user-Registered_example =
    add_user-Registered (λ s. s) (codes "eve") secret some_file eve-IsUsername secret-IsHash refl
      eve_new

add_user-colon_example :
    (add_user (λ s. s) (codes "a:b") secret some_file true
      ≡ some (content some_file ++ user_line (codes "a:b") secret))
    × ((any : Option (List ℕ)) (hash : List ℕ)
        → verify_credentials any (codes "a:b") hash ≡ ok false)
add_user-colon_example = add_user-colon (λ s. s) (codes "a:b") secret some_file refl
