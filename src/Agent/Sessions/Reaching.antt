-- ===== src/Agent/Sessions/Reaching.antt =====
-- What all the steps of the agent's sessions keep.
use pbox.Base.{ℕ, ◌+◌, ◌≡◌, ◌≤◌, refl, sym, subst, inl, inr, Option, none, some, ok, arith}
use pbox.Agent.Keys.{Screen}
use pbox.Agent.Sessions.{
  ExecRequest, checked, new_session, resize, attached_by, detached, processed, published,
}
use pbox.Agent.Sessions.Prepare.{IsChecked, dimensions-bounds, checked-IsChecked}
use pbox.Agent.Sessions.Sound.{
  IsMild, Sound, initial-Sound, changed-Sound, created-Sound, ended-Sound,
}
use pbox.Agent.Sessions.Steps.{
  World, start, attach, Step, start_requested, attach_requested, resized, viewer_gone,
  output_published, worker_spawned, owner_ended, permit_dropped, command_started, command_ended,
  with_slots, Report, Reachable, launched, after,
}
use pbox.Agent.Sessions.Arrivals.{CanStart, with_new, attached_world, start_cases, attach_cases}

pub resize-IsMild : (r c : ℕ) → (1 ≤ r) × (r ≤ 200) × (1 ≤ c) × (c ≤ 500) → IsMild (resize r c)
unfolding resize
resize-IsMild r c (h, h', k, k') = record {
  same_id = λ session. refl;
  same_user = λ session. refl;
  stays = λ name session fit. record {
    named = fit.named;
    some_rows = h;
    rows = h';
    some_cols = k;
    cols = k';
  };
}

pub attached_by-IsMild :
    (a : ℕ) (f : ExecRequest) → IsChecked f → IsMild (attached_by a f.terminal_rows f.terminal_cols)
unfolding attached_by resize
attached_by-IsMild a f c = record {
  same_id = λ session. refl;
  same_user = λ session. refl;
  stays = λ name session fit. record {
    named = fit.named;
    some_rows = c.some_rows;
    rows = c.rows;
    some_cols = c.some_cols;
    cols = c.cols;
  };
}

pub detached-IsMild : (a : ℕ) → IsMild (detached a)
unfolding detached
detached-IsMild a = record {
  same_id = λ session. refl;
  same_user = λ session. refl;
  stays = λ name session fit. record {
    named = fit.named;
    some_rows = fit.some_rows;
    rows = fit.rows;
    some_cols = fit.some_cols;
    cols = fit.cols;
  };
}

pub published-IsMild : (event : Option (Screen → Screen)) → IsMild (published event)
unfolding published processed
published-IsMild none = record {
  same_id = λ session. refl;
  same_user = λ session. refl;
  stays = λ name session fit. record {
    named = fit.named;
    some_rows = fit.some_rows;
    rows = fit.rows;
    some_cols = fit.some_cols;
    cols = fit.cols;
  };
}
published-IsMild (some process) = record {
  same_id = λ session. refl;
  same_user = λ session. refl;
  stays = λ name session fit. record {
    named = fit.named;
    some_rows = fit.some_rows;
    rows = fit.rows;
    some_cols = fit.some_cols;
    cols = fit.cols;
  };
}

with_new-Sound :
    (max : ℕ) (w : World) (first f : ExecRequest) (now : ℕ)
    → CanStart w first f
    → Sound max w
    → Sound max (with_new w f now)
with_new-Sound max w first f now can s =
    let c = checked-IsChecked first f can.passes in
    created-Sound max w f.session_name (new_session f w.agent.next now) (w.agent.next + 1) can.slot
      can.absent
      (record {
        named = c.named;
        some_rows = c.some_rows;
        rows = c.rows;
        some_cols = c.some_cols;
        cols = c.cols;
      })
      s

attached_world-Sound :
    (max : ℕ) (w : World) (first f : ExecRequest) (a : ℕ)
    → checked first ≡ ok f
    → Sound max w
    → Sound max (attached_world w f a)
attached_world-Sound max w first f a c s =
    changed-Sound max w f.session_name _ (attached_by-IsMild a f (checked-IsChecked first f c)) s

start-Sound :
    (max : ℕ) (w : World) (first : ExecRequest) (now : ℕ) (report : Report)
    → Sound max w
    → Sound max ((start w first now report).1)
start-Sound max w first now report s = elim (start_cases w first now report) [
  | inl (status, e) ↦ subst (λ r. Sound max (r.1)) (sym e) s
  | inr (f, b) ↦ subst (Sound max) (sym b.world) (with_new-Sound max w first f now b.can s)
]

attach-Sound :
    (max : ℕ) (w : World) (first : ExecRequest) (now a : ℕ)
    → Sound max w
    → Sound max ((attach w first now a).1)
attach-Sound max w first now a s = elim (attach_cases w first now a) [
  | inl (status, e) ↦ subst (λ r. Sound max (r.1)) (sym e) s
  | inr (f, inl (can, e)) ↦
      subst (λ r. Sound max (r.1)) (sym e)
        (attached_world-Sound max (with_new w f now) first f a can.passes
          (with_new-Sound max w first f now can s))
  | inr (f, inr j) ↦
      subst (λ r. Sound max (r.1)) (sym j.same)
        (attached_world-Sound max w first f a j.can.passes s)
]

permits-Sound :
    (max : ℕ) (w : World) (slots leaving commands : ℕ)
    → slots + (leaving + commands) ≡ w.agent.slots + (w.leaving + w.commands)
    → Sound max w
    → Sound max (record (with_slots slots w) { leaving = leaving; commands = commands })
permits-Sound max w slots leaving commands e s = record {
  distinct = s.distinct;
  apart = s.apart;
  owned = s.owned;
  permits = omega (arith, s.permits);
  counted = s.counted;
  fit = s.fit;
}

pub Step-Sound : (max : ℕ) (w w' : World) → Step w w' → Sound max w → Sound max w'
Step-Sound max w _ (start_requested _ first now report) s = start-Sound max w first now report s
Step-Sound max w _ (attach_requested _ first now a) s = attach-Sound max w first now a s
Step-Sound max w _ (resized _ name rows cols r c e) s =
    changed-Sound max w name (resize r c) (resize-IsMild r c (dimensions-bounds rows cols r c e)) s
Step-Sound max w _ (viewer_gone _ name a) s =
    changed-Sound max w name (detached a) (detached-IsMild a) s
Step-Sound max w _ (output_published _ name event) s =
    changed-Sound max w name (published event) (published-IsMild event) s
Step-Sound max w _ (worker_spawned _ id e) s = record {
  distinct = s.distinct;
  apart = s.apart;
  owned = s.owned;
  permits = s.permits;
  counted = s.counted;
  fit = s.fit;
}
Step-Sound max w _ (owner_ended _ name id front back e p) s =
    ended-Sound max w name id front back e s
Step-Sound max w _ (permit_dropped _ left e) s =
    permits-Sound max w (w.agent.slots + 1) left w.commands (omega arith) s
Step-Sound max w _ (command_started _ left e) s =
    permits-Sound max w left w.leaving (w.commands + 1) (omega arith) s
Step-Sound max w _ (command_ended _ left e) s =
    permits-Sound max w (w.agent.slots + 1) w.leaving left (omega arith) s

-- However requests, output, attachments, ends of owners and commands interleave: no two sessions have the
-- same name, every session has exactly one worker, which knows its number, and every worker that has not
-- removed its name its session, so that an owner that ends removes the session that it owns; the free
-- permits, these workers, the owners that have removed their name and still hold a permit, and the
-- commands that run are together as many as the permits of the agent; and each session has a name that
-- the checks accept, and between one and 200 rows and between one and 500 columns.
pub Reachable-Sound : (max : ℕ) (w : World) → Reachable max w → Sound max w
Reachable-Sound max _ launched = initial-Sound max
Reachable-Sound max w (after v _ r step) = Step-Sound max v w step (Reachable-Sound max v r)
