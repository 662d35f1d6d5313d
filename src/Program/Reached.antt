-- ===== src/Program/Reached.antt =====
-- What holds of the server in every state that it can reach.
use cloud_sys.Base.{ℕ, Bool, Option, ◌≡◌, sym, ap, subst, ◌∙◌, List, [], ◌∷◌, ◌++◌, some}
use cloud_sys.Net.{Net}
use cloud_sys.Start.{Dbms, serving, server_start}
use cloud_sys.Start.Sound.{serving-IsSound}
use cloud_sys.Database.{Mysql}
use cloud_sys.File.{Files}
use cloud_sys.Queue.{LongCommand}
use cloud_sys.Queue.Refinement.{Refines}
use cloud_sys.Commands.{Server}
use cloud_sys.Commands.Keeps.{AreValid}
use cloud_sys.Commands.Unheard.{Answers, answers, long_solve_command-Answers}
use cloud_sys.Dispatch.Turn.{Loop}
use cloud_sys.Dispatch.Sound.{
  IsSound, SoundEvent, new_client-IsSound, readable-IsSound, check_time-IsSound,
}
use cloud_sys.Pool.{
  ThreadPool, Worker, System, locked, start, Steps, here, later, locks, wakes, finishes, submits,
  quits,
}
use cloud_sys.Pool.Invariant.{Steps-in_order}
use cloud_sys.Program.{
  Handed, nothing_new, one_more, Program, Moves, turns, no_connection, accepts, reads, stops,
  enters, rises, works, Reaches, at_once, and_then, begun,
}
use cloud_sys.Program.Submits.{new_client-queue, check_time-queue}

module _ (m : Mysql) (f : Files) (raw : ThreadPool) where
  -- The pool has been reached by its own steps, the commands submitted to it are those that the main
  -- thread has routed, and the tables of the main thread are valid.
  pub record IsWhole (s : Program m f) : Type 0 where
    pub steps : Steps (start raw) s.pool
    pub routed : s.pool.submitted ≡ s.loop.main.queue
    pub sound : IsSound m f s.loop.main

  pub Handed-Steps :
      (p q : System) (before after : List LongCommand)
      → Handed p before after q
      → Steps (start raw) p
      → p.submitted ≡ before
      → Steps (start raw) q × (q.submitted ≡ after)
  Handed-Steps p q before after (nothing_new e) r h = (r, h ∙ sym e)
  Handed-Steps p q before after (one_more a c code t e ne unused en) r h =
      (later r (submits a c code t ne unused en), ap (λ xs. xs ++ c ∷ []) h ∙ sym e)

  works-AreValid : (sock : ℕ) (s t : Server m f) → Answers m f sock s t → AreValid s → AreValid t
  unfolding AreValid
  works-AreValid sock s t (answers type v d w) h = h

  Moves-IsWhole : (s t : Program m f) → IsWhole s → Moves m f s t → IsWhole t
  Moves-IsWhole s t h (turns r e z) = record {
    steps = h.steps;
    routed = h.routed ∙ sym (check_time-queue m f r s.loop);
    sound = check_time-IsSound m f r s.loop h.sound;
  }
  Moves-IsWhole s t h (no_connection es e z) = record {
    steps = h.steps;
    routed = h.routed;
    sound = h.sound;
  }
  Moves-IsWhole s t h (accepts fd now es e z) = record {
    steps = h.steps;
    routed = h.routed ∙ sym (new_client-queue m f fd s.current_time now s.loop.main);
    sound = new_client-IsSound m f fd s.current_time now s.loop.main h.sound;
  }
  Moves-IsWhole s t h (reads fd now segs rest o es u p e z k handed) =
      let r = Handed-Steps s.pool p s.loop.main.queue u.queue handed h.steps h.routed in
      record {
        steps = r.0;
        routed = r.1;
        sound =
            subst (SoundEvent m f) k
              (readable-IsSound m f o fd s.current_time now segs s.loop.main h.sound);
      }
  Moves-IsWhole s t h (stops es e z) = record {
    steps = later h.steps quits;
    routed = h.routed;
    sound = h.sound;
  }
  Moves-IsWhole s t h (enters i v p few w e) = record {
    steps = later h.steps (locks i v p few w e);
    routed = h.routed;
    sound = h.sound;
  }
  Moves-IsWhole s t h (rises i w) = record {
    steps = later h.steps (wakes i w);
    routed = h.routed;
    sound = h.sound;
  }
  Moves-IsWhole s t h (works i sock c ret u w e) = record {
    steps = later h.steps (finishes i c w);
    routed = h.routed;
    sound = record {
      clients = h.sound.clients;
      sessions =
          works-AreValid sock s.loop.main.server u
            (long_solve_command-Answers m f sock s.loop.main.server c.netfd c.packet u ret e)
            h.sound.sessions;
    };
  }

  pub Reaches-IsWhole : (s t : Program m f) → IsWhole s → Reaches m f s t → IsWhole t
  Reaches-IsWhole s t h at_once = h
  Reaches-IsWhole s t h (and_then {t = u} r v) = Moves-IsWhole u t (Reaches-IsWhole s u h r) v

module _ (m : Mysql) (b : Dbms m) (f : Files) (n : Net) (raw : ThreadPool) (forked : Bool)
    (now exit_pipe : ℕ) (fs : f.Fs) (w w' : n.World) (l : Loop m f) (p : System) (sockfd : ℕ)
    (epfd : Option ℕ)
    (starts : server_start m b f n forked now exit_pipe raw fs w ≡ serving l p sockfd epfd w') where
  pub started-IsWhole : (t : Program m f) → Reaches m f (begun m f l p) t → IsWhole m f raw t
  started-IsWhole t r =
      let (no_command, new, sound) =
        serving-IsSound m b f n raw forked now exit_pipe fs w w' l p sockfd epfd starts in
      Reaches-IsWhole m f raw (begun m f l p) t
        (record {
          steps = subst (Steps (start raw)) (sym new) here;
          routed = ap (λ q. q.submitted) new ∙ sym no_command;
          sound = sound;
        })
        r

  -- A server that has started (its loop has begun, so the database is there and the listening socket
  -- was made) and goes on by any steps of the main thread and of the workers, in any interleaving,
  -- keeps this: the commands that the main thread has routed to the workers are, in their order, those
  -- that workers have taken and behind them the list that the queue stands for; a worker that gets the
  -- lock misreads no pointer; and the tables of clients and of sessions are valid.
  pub Reaches-in_order :
      (t : Program m f)
      → Reaches m f (begun m f l p) t
      → (queue : List LongCommand) × Refines t.pool.pool.task_queue queue
        × (t.loop.main.queue ≡ t.pool.taken ++ queue)
        × ((r : Worker × ThreadPool) × (locked t.pool.pool ≡ some r))
        × IsSound m f t.loop.main
  Reaches-in_order t r =
      let h = started-IsWhole t r in
      let (queue, refines, in_order, out, found) = Steps-in_order raw t.pool h.steps in
      (queue, refines, sym h.routed ∙ in_order, (out, found), h.sound)
