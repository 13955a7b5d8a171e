-- ===== src/Kube/Laws.antt =====
-- What the synchronizers rely on of the API server, at one kind in one namespace. `find w n` is the
-- stored object named `n`. The reads are taken to be up to date, and the objects to carry no
-- finalizer, so that a deletion takes effect at once.
use awi_catalyst_sdwan_opera.Base.{
  String, ◌≡◌, ap, ◌∙◌, Bool, false, not, ◌||◌, Option, none, some, List, [], ◌∷◌, ◌==◌, or_else,
  if◌then◌else◌,
}
use awi_catalyst_sdwan_opera.Exec.{Exec, Result, ok, ◌>>=◌, >>=-ind}
use awi_catalyst_sdwan_opera.Api.{Resource}
use awi_catalyst_sdwan_opera.Kube.{Client}

unfoldable pub any : {A : Type 0} → (A → Bool) → List A → Bool
any p [] = false
any p (x ∷ xs) = p x || any p xs

-- The object named `n`; the last one, should a list name two alike.
unfoldable pub find_named : {S : Type 0} → String → List (Resource S) → Option (Resource S)
find_named n [] = none
find_named n (x ∷ xs) = or_else (find_named n xs) (if x.metadata.name == n then some x else none)

abbrev pub is_foreign : {S : Type 0} → String → Resource S → Bool
is_foreign namespace x = not (x.metadata.namespace == namespace)

-- An action that changes nothing of what `find` shows.
abbrev pub Preserves : {W A X : Type 0} → (W → String → Option X) → Exec W A → Type 0
Preserves {W} find m = (w : W) (n : String) → find (m w).1 n ≡ find w n

pub preserved :
    {W A X : Type 0} (find : W → String → Option X) (m : Exec W A)
    → Preserves find m
    → {w v : W} {r : Result A} (n : String) → m w ≡ (r, v)
    → find v n ≡ find w n
preserved find m p {w} n e = rw (ap (λ q. q.1) e) at (p w n)

pub >>=-Preserves :
    {W A B X : Type 0} (find : W → String → Option X) (m : Exec W A) (f : A → Exec W B)
    → Preserves find m
    → ((a : A) → Preserves find (f a))
    → Preserves find (m >>= f)
>>=-Preserves find m f p q w n =
    >>=-ind (λ v. find v n ≡ find w n) m f w (p w n) (λ a v e. q a v n ∙ preserved find m p n e)

pub record IsLawful {W S : Type 0} (namespace : String) (client : Client W (Resource S))
    (find : W → String → Option (Resource S)) : Type 0 where
  -- A list has the stored objects of the namespace.
  pub list_ok :
      (w w' : W) (l : List (Resource S)) (n : String)
      → client.list_in namespace w ≡ (ok l, w')
      → find_named n l ≡ find w n
  pub list_local :
      (w w' : W) (l : List (Resource S))
      → client.list_in namespace w ≡ (ok l, w')
      → any (is_foreign namespace) l ≡ false
  pub list_keeps : Preserves find (client.list_in namespace)
  -- A creation succeeds only where the name is free, and stores the object.
  pub create_free :
      (x : Resource S) (w w' : W)
      → x.metadata.namespace ≡ namespace
      → client.create x w ≡ (ok tt, w')
      → find w x.metadata.name ≡ none
  pub create_ok :
      (x : Resource S) (w w' : W) (n : String)
      → x.metadata.namespace ≡ namespace
      → client.create x w ≡ (ok tt, w')
      → find w' n ≡ (if x.metadata.name == n then some x else find w n)
  -- Whatever it returns, it overwrites nothing.
  pub create_keeps :
      (x y : Resource S) (w : W) (n : String)
      → find w n ≡ some y
      → find (client.create x w).1 n ≡ some y
  pub delete_ok :
      (x : Resource S) (w w' : W) (n : String)
      → x.metadata.namespace ≡ namespace
      → client.delete x w ≡ (ok tt, w')
      → find w' n ≡ (if x.metadata.name == n then none else find w n)
  -- Whatever it returns, it touches no other name.
  pub delete_keeps :
      (x : Resource S) (w : W) (n : String)
      → (x.metadata.name == n) ≡ false
      → find (client.delete x w).1 n ≡ find w n
