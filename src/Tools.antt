-- ===== src/Tools.antt =====
-- tools: the command-line tools that stand in for a publisher and for a viewer, and what they share.
pub mod Publisher
pub mod Subscriber
pub mod Watching
use streammix.Common.{◌≡◌, refl, Option, none, some}
use streammix.Store.{own_or}

pub own_or_assoc : {A : Type 0} (a b c : Option A) → own_or (own_or a b) c ≡ own_or a (own_or b c)
own_or_assoc (some v) b c = refl
own_or_assoc none b c = refl

pub own_or-none : {A : Type 0} (a : Option A) → own_or a none ≡ a
own_or-none none = refl
own_or-none (some v) = refl
