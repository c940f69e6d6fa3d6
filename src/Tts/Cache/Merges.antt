-- ===== src/Tts/Cache/Merges.antt =====
-- The files of the cache in the order of their use, and lists that are parted.
use tgpager.Base.{◌+◌, ◌≤◌, ◌≡◌, List, [], ◌∷◌, ◌++◌, All, arith}
use tgpager.Tts.Cache.{File, total_size}

-- Each file was used no later than those behind it.
abbrev pub IsByUse : List File → Type 0
IsByUse [] = Unit {0}
IsByUse (f ∷ fs) = All (λ g. f.used ≤ g.used) fs × IsByUse fs

-- Every file of the first list was used no later than every file of the second.
abbrev pub AreOlder : List File → List File → Type 0
AreOlder fs gs = All (λ f. All (λ g. f.used ≤ g.used) gs) fs

All-behind : (P : File → Type 0) (xs ys : List File) → All P (xs ++ ys) → All P ys
All-behind P [] ys h = h
All-behind P (x ∷ xs) ys (p, h) = All-behind P xs ys h

pub All-before : (P : File → Type 0) (xs ys : List File) → All P (xs ++ ys) → All P xs
All-before P [] ys h = tt
All-before P (x ∷ xs) ys (p, h) = (p, All-before P xs ys h)

pub AreOlder-split : (xs ys : List File) → IsByUse (xs ++ ys) → AreOlder xs ys
AreOlder-split [] ys h = tt
AreOlder-split (x ∷ xs) ys (first, h) =
    (All-behind (λ g. x.used ≤ g.used) xs ys first, AreOlder-split xs ys h)

-- The third list is made of the first two, each in its order.
pub data Merges : List File → List File → List File → Type 0 where
  nothing : Merges [] [] []
  left : {xs ys zs : List File} (f : File) → Merges xs ys zs → Merges (f ∷ xs) ys (f ∷ zs)
  right : {xs ys zs : List File} (f : File) → Merges xs ys zs → Merges xs (f ∷ ys) (f ∷ zs)

pub All-left : (P : File → Type 0) {xs ys zs : List File} → Merges xs ys zs → All P zs → All P xs
All-left P nothing h = tt
All-left P (left f m) (p, h) = (p, All-left P m h)
All-left P (right f m) (p, h) = All-left P m h

pub total_size-append : (xs ys : List File) → total_size (xs ++ ys) ≡ total_size xs + total_size ys
total_size-append [] ys = omega arith
total_size-append (x ∷ xs) ys = omega (arith, total_size-append xs ys)

pub Merges-total_size :
    {xs ys zs : List File} → Merges xs ys zs → total_size zs ≡ total_size xs + total_size ys
Merges-total_size nothing = omega arith
Merges-total_size (left f m) = omega (arith, Merges-total_size m)
Merges-total_size (right f m) = omega (arith, Merges-total_size m)
