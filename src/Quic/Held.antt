-- ===== src/Quic/Held.antt =====
-- What the program holds of MsQuic, by the record of its calls: every handle that was opened or handed
-- over and not closed. To close what is not held is an error.
use squimpchat.Base.{
  ◌≡◌, refl, Bool, true, false, Option, none, some, List, [], ◌∷◌, ◌==◌, if◌then◌else◌, ==_refl,
}
use squimpchat.Net.{
  Net, Resource, library, registration, configuration, listener, connection, stream, ApiCall,
  handed_over, open_call, start_call, shutdown_call, close_call, settings_call,
}

unfoldable pub same_resource : Resource → Resource → Bool
same_resource library library = true
same_resource (registration a) (registration b) = a == b
same_resource (configuration a) (configuration b) = a == b
same_resource (listener a) (listener b) = a == b
same_resource (connection a) (connection b) = a == b
same_resource (stream a) (stream b) = a == b
same_resource _ _ = false

abbrev cons : Resource → Option (List Resource) → Option (List Resource)
cons r none = none
cons r (some rs) = some (r ∷ rs)

-- `none` if the resource is not there.
unfoldable pub release : Resource → List Resource → Option (List Resource)
unfolding same_resource
release r [] = none
release r (x ∷ xs) = let rest = cons x (release r xs) in if same_resource r x then some xs else rest

-- The effect of one call.
unfoldable pub after_call : ApiCall → List Resource → Option (List Resource)
unfolding release
after_call (open_call r) rs = some (r ∷ rs)
after_call (handed_over r) rs = some (r ∷ rs)
after_call (close_call r) rs = release r rs
after_call (start_call r) rs = some rs
after_call (shutdown_call r) rs = some rs
after_call (settings_call h s) rs = some rs

abbrev after_calls : ApiCall → Option (List Resource) → Option (List Resource)
after_calls call none = none
after_calls call (some rs) = after_call call rs

-- What is held after all calls, the last opened first; `none` if something was closed that was not
-- held.
unfoldable pub held : List ApiCall → Option (List Resource)
unfolding after_call
held [] = some []
held (call ∷ calls) = after_calls call (held calls)

-- What the program holds.
abbrev pub Holds : Net → List Resource → Type 0
Holds n rs = held n.api ≡ some rs

same_resource_refl : (r : Resource) → same_resource r r ≡ true
unfolding same_resource
same_resource_refl library = refl
same_resource_refl (registration h) = ==_refl h
same_resource_refl (configuration h) = ==_refl h
same_resource_refl (listener h) = ==_refl h
same_resource_refl (connection h) = ==_refl h
same_resource_refl (stream h) = ==_refl h

release_first : (r : Resource) (rs : List Resource) → release r (r ∷ rs) ≡ some rs
unfolding release
release_first r rs = rw (same_resource_refl r) refl

pub held_open :
    (calls : List ApiCall) {rs : List Resource} (r : Resource)
    → held calls ≡ some rs
    → held (open_call r ∷ calls) ≡ some (r ∷ rs)
unfolding held
held_open calls r h = rw h refl

-- What was opened last can be closed.
pub held_close :
    (calls : List ApiCall) {rs : List Resource} (r : Resource)
    → held calls ≡ some (r ∷ rs)
    → held (close_call r ∷ calls) ≡ some rs
unfolding held
held_close calls {rs} r h = rw h (release_first r rs)

-- To close takes the resource out, and is an error if it is not held.
pub held-release :
    (calls : List ApiCall) {rs : List Resource} (r : Resource)
    → held calls ≡ some rs
    → held (close_call r ∷ calls) ≡ release r rs
unfolding held
held-release calls {rs} r h = rw h

pub held-handed_over :
    (calls : List ApiCall) {rs : List Resource} (r : Resource)
    → held calls ≡ some rs
    → held (handed_over r ∷ calls) ≡ some (r ∷ rs)
unfolding held
held-handed_over calls r h = rw h refl

-- What is closed at once was not opened.
pub held_open_close :
    (calls : List ApiCall) {rs : List Resource} (r : Resource)
    → held calls ≡ some rs
    → held (close_call r ∷ open_call r ∷ calls) ≡ some rs
held_open_close calls r h = held_close (open_call r ∷ calls) r (held_open calls r h)

-- To start what is open opens nothing.
pub held_start :
    (calls : List ApiCall) {rs : List Resource} (r : Resource)
    → held calls ≡ some rs
    → held (start_call r ∷ calls) ≡ some rs
unfolding held
held_start calls r h = rw h refl
