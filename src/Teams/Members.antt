-- ===== src/Teams/Members.antt =====
-- Lists of members: owners, addresses and roles under the changes that the operations make.
use arbiter_backend.Base.{
  ℕ, ◌+◌, ◌≤◌, String, ◌≡◌, refl, true, false, not, ◌&&◌, ◌||◌, none, some, List, [], ◌∷◌, ◌++◌,
  arith, str_eq, eq_iff, includes, distinct, length, is_some, or_else, if◌then◌else◌,
}
use arbiter_backend.Teams.Model.{Member, Role, owner, admin, find_role, with_role, without_member}

abbrev pub is_owner : Role → ℕ
is_owner owner = 1
is_owner _ = 0

abbrev pub owners : List Member → ℕ
owners [] = 0
owners (m ∷ ms) = is_owner m.role + owners ms

abbrev pub addresses : List Member → List String
addresses [] = []
addresses (m ∷ ms) = m.address ∷ addresses ms

pub includes-addresses :
    (ms : List Member) (a : String) → includes (addresses ms) a ≡ is_some (find_role ms a)
includes-addresses [] a = refl
includes-addresses (m ∷ ms) a = ground (arith, includes-addresses ms a)

pub owner-counted : (ms : List Member) (a : String) → find_role ms a ≡ some owner → 1 ≤ owners ms
owner-counted [] a e = cc
owner-counted (m ∷ ms) a e = ground (arith, owner-counted ms a)

pub owners-with_role :
    (ms : List Member) (a : String) (r q : Role)
    → find_role ms a ≡ some r
    → owners (with_role a q ms) + is_owner r ≡ owners ms + is_owner q
unfolding with_role
owners-with_role [] a r q e = cc
owners-with_role (m ∷ ms) a r q e = ground (arith, owners-with_role ms a r q)

pub find_role-with_role_ne :
    (ms : List Member) (a b : String) (q : Role)
    → str_eq a b ≡ false
    → find_role (with_role a q ms) b ≡ find_role ms b
unfolding with_role
find_role-with_role_ne [] a b q n = refl
find_role-with_role_ne (m ∷ ms) a b q n =
    ground
      (arith, find_role-with_role_ne ms a b q, eq_iff m.address a, eq_iff m.address b, eq_iff a b)

pub addresses-with_role :
    (ms : List Member) (a : String) (q : Role) → addresses (with_role a q ms) ≡ addresses ms
unfolding with_role
addresses-with_role [] a q = refl
addresses-with_role (m ∷ ms) a q = ground (arith, addresses-with_role ms a q)

pub length-addresses : (ms : List Member) → length (addresses ms) ≡ length ms
length-addresses [] = refl
length-addresses (m ∷ ms) = omega (arith, length-addresses ms)

-- With one owner, nobody beside the owner has that role.
pub sole-owner :
    (ms : List Member) (a b : String) (r : Role)
    → owners ms ≡ 1
    → find_role ms a ≡ some owner
    → str_eq a b ≡ false
    → find_role ms b ≡ some r
    → is_owner r ≡ 0
sole-owner ms a b owner one fa n fb = absurd (
    omega (
      arith,
      owners-with_role ms a owner admin fa,
      owner-counted (with_role a admin ms) b (rw (find_role-with_role_ne ms a b admin n) fb),
    ))
sole-owner ms a b _ one fa n fb = refl

without-absent :
    (a : String) (ms : List Member) → includes (addresses ms) a ≡ false → without_member a ms ≡ ms
unfolding without_member
without-absent a [] n = refl
without-absent a (m ∷ ms) n = ground (arith, without-absent a ms)

pub owners-without_member :
    (a : String) (ms : List Member) (r : Role)
    → distinct (addresses ms) ≡ true
    → find_role ms a ≡ some r
    → owners (without_member a ms) + is_owner r ≡ owners ms
unfolding without_member
owners-without_member a [] r d e = cc
owners-without_member a (m ∷ ms) r d e =
    ground (arith, owners-without_member a ms r, without-absent a ms, eq_iff m.address a)

pub addresses-without_member :
    (a : String) (ms : List Member) (b : String)
    → includes (addresses (without_member a ms)) b ≡ (includes (addresses ms) b && not (str_eq a b))
unfolding without_member
addresses-without_member a [] b = refl
addresses-without_member a (m ∷ ms) b =
    ground
      (arith, addresses-without_member a ms b, eq_iff m.address a, eq_iff m.address b, eq_iff a b)

pub distinct-without_member :
    (a : String) (ms : List Member)
    → distinct (addresses ms) ≡ true
    → distinct (addresses (without_member a ms)) ≡ true
unfolding without_member
distinct-without_member a [] d = refl
distinct-without_member a (m ∷ ms) d =
    ground (arith, distinct-without_member a ms, addresses-without_member a ms m.address)

pub owners-append : (ms ns : List Member) → owners (ms ++ ns) ≡ owners ms + owners ns
owners-append [] ns = omega arith
owners-append (m ∷ ms) ns = omega (arith, owners-append ms ns)

pub addresses-snoc :
    (ms : List Member) (n : Member) (b : String)
    → includes (addresses (ms ++ n ∷ [])) b ≡ (includes (addresses ms) b || str_eq n.address b)
addresses-snoc [] n b = ground arith
addresses-snoc (m ∷ ms) n b = ground (arith, addresses-snoc ms n b)

pub distinct-snoc :
    (ms : List Member) (n : Member)
    → distinct (addresses ms) ≡ true
    → includes (addresses ms) n.address ≡ false
    → distinct (addresses (ms ++ n ∷ [])) ≡ true
distinct-snoc [] n d f = refl
distinct-snoc (m ∷ ms) n d f = ground (
  arith,
  distinct-snoc ms n,
  addresses-snoc ms n m.address,
  eq_iff m.address n.address,
  eq_iff n.address m.address,
)

pub find_role-snoc :
    (ms : List Member) (n : Member) (b : String)
    → find_role (ms ++ n ∷ []) b
      ≡ or_else (find_role ms b) (if str_eq n.address b then some n.role else none)
find_role-snoc [] n b = refl
find_role-snoc (m ∷ ms) n b = ground (arith, find_role-snoc ms n b)
