-- ===== src/World/Frame.antt =====
-- What an action leaves alone, and which calls it makes.
use ftpii.Base.{◌≡◌, refl, sym, ◌∙◌, ap, List, [], ◌∷◌, ◌++◌, All, All-append, append_assoc}
use ftpii.Os.{Code, Call, Answer, Event}
use ftpii.World.{World}

-- The history grew by calls that are all as `P` says.
pub record Grows (P : Call → Type 0) (w w' : World) : Type 0 where
  pub new : List Event
  pub grown : w'.trace ≡ new ++ w.trace
  pub made : All (λ e. P e.call) new

-- Besides that, only errno and the size of the network buffer may have changed.
pub record Talks (P : Call → Type 0) (w w' : World) : Type 0 where
  pub grows : Grows P w w'
  pub ftp : w'.ftp ≡ w.ftp
  pub fs : w'.fs ≡ w.fs
  pub dvd : w'.dvd ≡ w.dvd
  pub reset : w'.reset ≡ w.reset

module _ {P : Call → Type 0} where
  unfoldable pub Grows-refl : (w : World) → Grows P w w
  Grows-refl w = record { new = []; grown = refl; made = tt }

  unfoldable pub Grows-trans : {u v w : World} → Grows P u v → Grows P v w → Grows P u w
  Grows-trans {u} g h = record {
    new = h.new ++ g.new;
    grown = h.grown ∙ ap (◌++◌ h.new) g.grown ∙ sym (append_assoc h.new g.new u.trace);
    made = All-append (λ e. P e.call) h.new g.new h.made g.made;
  }

  unfoldable pub Talks-refl : (w : World) → Talks P w w
  unfolding Grows-refl
  Talks-refl w = record { grows = Grows-refl w; ftp = refl; fs = refl; dvd = refl; reset = refl }

  unfoldable pub Talks-trans : {u v w : World} → Talks P u v → Talks P v w → Talks P u w
  unfolding Grows-trans
  Talks-trans g h = record {
    grows = Grows-trans g.grows h.grows;
    ftp = h.ftp ∙ g.ftp;
    fs = h.fs ∙ g.fs;
    dvd = h.dvd ∙ g.dvd;
    reset = h.reset ∙ g.reset;
  }

pub All-weaken :
    {P Q : Call → Type 0}
    → ((c : Call) → P c → Q c)
    → (es : List Event) → All (λ e. P e.call) es
    → All (λ e. Q e.call) es
All-weaken k [] h = tt
All-weaken k (e ∷ es) h = (k e.call h.0, All-weaken k es h.1)

unfoldable pub Talks-weaken :
    {P Q : Call → Type 0} {w w' : World} → ((c : Call) → P c → Q c) → Talks P w w' → Talks Q w w'
Talks-weaken k t = record {
  grows = record {
    new = t.grows.new;
    grown = t.grows.grown;
    made = All-weaken k t.grows.new t.grows.made;
  };
  ftp = t.ftp;
  fs = t.fs;
  dvd = t.dvd;
  reset = t.reset;
}

-- One call.
pub one_call :
    {P : Call → Type 0} (c : Call) (a : Answer) (w : World)
    → P c
    → Talks P w (record w { trace = record { call = c; answer = a } ∷ w.trace })
one_call c a w h = record {
  grows = record { new = record { call = c; answer = a } ∷ []; grown = refl; made = (h, tt) };
  ftp = refl;
  fs = refl;
  dvd = refl;
  reset = refl;
}

pub errno_only : {P : Call → Type 0} (e : Code) (w : World) → Talks P w (record w { errno = e })
errno_only e w = record {
  grows = record { new = []; grown = refl; made = tt };
  ftp = refl;
  fs = refl;
  dvd = refl;
  reset = refl;
}
