-- ===== src/File/Transfer.antt =====
-- filestat, fileread and filewrite of lab5/xv6-thread/kernel/file.c and the invariant of File/Ends.
use ecnu_oslab.Base.{ℕ, ◌<◌, ◌≡◌, inl, inr, Bool, Option, some, List, length, Bool-cases, ℤ}
use ecnu_oslab.Pipe.{
  Pipe, WriteCall, refused, sleeps as waits_to_write, written, pipewrite, ReadCall, denied, waits,
  got, piperead,
}
use ecnu_oslab.Pipe.Ends.{WriteEnds, ReadEnds, pipewrite-WriteEnds, piperead-ReadEnds}
use ecnu_oslab.Fs
use ecnu_oslab.Fs.Inodes.{ilock, iunlock}
use ecnu_oslab.Fs.Content.{stati, readi, writei}
use ecnu_oslab.File.{
  nfile, FileType, fd_none, fd_pipe, fd_inode, Files, in_fs, stat_of, filestat, advance, end_read,
  fileread, end_write, filewrite,
}
use ecnu_oslab.File.Ends.{EndsOk, EndsOk-pipe}
use ecnu_oslab.File.Calls.{Good, Keeps, then_run-Good, in_fs-Keeps, advance-Keeps, type-cases}

pub filestat-Keeps : (f : ℕ) → Keeps (filestat f)
unfolding filestat
filestat-Keeps f s ok = stat-Good (s.files f).type
  where
    stat-Good : (t : FileType) → Good (stat_of t (s.files f).ip s)
    stat-Good fd_none = ok
    stat-Good fd_pipe = ok
    stat-Good fd_inode =
        then_run-Good (in_fs (ilock (s.files f).ip) s) _ (in_fs-Keeps (ilock (s.files f).ip) s ok)
          (λ a t o.
            then_run-Good (in_fs (stati (s.files f).ip) t) _
              (in_fs-Keeps (stati (s.files f).ip) t o)
              (λ b u p.
                then_run-Good (in_fs (iunlock (s.files f).ip) u) _
                  (in_fs-Keeps (iunlock (s.files f).ip) u p) (λ c w q. q)))

end_read-Good :
    (a : ℕ) (p : Pipe) (call : ReadCall) (s : Files)
    → EndsOk s
    → s.pipes a ≡ some p
    → ReadEnds call p
    → Good (end_read a call s)
end_read-Good a p (denied q) s ok e k = EndsOk-pipe s a p q ok e k
end_read-Good a p (waits q) s ok e k = EndsOk-pipe s a p q ok e k
end_read-Good a p (got woken cs q) s ok e k = EndsOk-pipe s a p q ok e k

end_write-Good :
    (a n : ℕ) (p : Pipe) (call : WriteCall) (s : Files)
    → EndsOk s
    → s.pipes a ≡ some p
    → WriteEnds call p.readopen p.writeopen
    → Good (end_write a n call s)
end_write-Good a n p (refused woken q) s ok e k = EndsOk-pipe s a p q ok e k
end_write-Good a n p (waits_to_write woken rest q) s ok e k = EndsOk-pipe s a p q ok e k
end_write-Good a n p (written woken q) s ok e k = EndsOk-pipe s a p q ok e k

module _ (dev_read : ℕ → Option (ℕ → ℕ → Fs.M (ℤ × List ℕ))) where
  pub fileread-Good :
      (killed : Bool) (f n : ℕ) (s : Files)
      → EndsOk s
      → f < nfile
      → 0 < (s.files f).ref
      → Good (fileread dev_read killed f n s)
  unfolding fileread
  fileread-Good killed f n s ok l r = elim (Bool-cases (s.files f).readable) [
    | inr t ↦ rw t ok
    | inl t ↦ elim (type-cases (s.files f).type) [
      | inl e ↦ rw (t, e) tt
      | inr (inl e) ↦
          (let (p, q, o) = ok.target f l (r, e) in
            rw (t, e, q)
              (end_read-Good (s.files f).pipe p (piperead killed p n) s ok q
                (piperead-ReadEnds killed p n)))
      | inr (inr e) ↦
          rw (t, e)
            (then_run-Good (in_fs (ilock (s.files f).ip) s) _
              (in_fs-Keeps (ilock (s.files f).ip) s ok)
              (λ a u o.
                then_run-Good (in_fs (readi dev_read (s.files f).ip (s.files f).off n) u) _
                  (in_fs-Keeps (readi dev_read (s.files f).ip (s.files f).off n) u o)
                  (λ b w p. then_run-Good (advance f b.0 w) _ (advance-Keeps f b.0 w p) (λ c x q.
                    then_run-Good (in_fs (iunlock (s.files f).ip) x) _
                      (in_fs-Keeps (iunlock (s.files f).ip) x q) (λ d y z. z)))))
    ]
  ]

module _ (dev_write : ℕ → Option (ℕ → List ℕ → Fs.M ℤ)) where
  pub filewrite-Good :
      (killed : Bool) (f : ℕ) (src : List ℕ) (s : Files)
      → EndsOk s
      → f < nfile
      → 0 < (s.files f).ref
      → Good (filewrite dev_write killed f src s)
  unfolding filewrite
  filewrite-Good killed f src s ok l r = elim (Bool-cases (s.files f).writable) [
    | inr t ↦ rw t ok
    | inl t ↦ elim (type-cases (s.files f).type) [
      | inl e ↦ rw (t, e) tt
      | inr (inl e) ↦
          (let (p, q, o) = ok.target f l (r, e) in
            rw (t, e, q)
              (end_write-Good (s.files f).pipe (length src) p (pipewrite killed p src) s ok q
                (pipewrite-WriteEnds killed p src)))
      | inr (inr e) ↦
          rw (t, e)
            (then_run-Good (in_fs (ilock (s.files f).ip) s) _
              (in_fs-Keeps (ilock (s.files f).ip) s ok)
              (λ a u o.
                then_run-Good (in_fs (writei dev_write (s.files f).ip src (s.files f).off) u) _
                  (in_fs-Keeps (writei dev_write (s.files f).ip src (s.files f).off) u o)
                  (λ b w p. then_run-Good (advance f b w) _ (advance-Keeps f b w p) (λ c x q.
                    then_run-Good (in_fs (iunlock (s.files f).ip) x) _
                      (in_fs-Keeps (iunlock (s.files f).ip) x q) (λ d y z. z)))))
    ]
  ]
