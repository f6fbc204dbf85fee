-- ===== src/Messages/Signals3.antt =====
-- The backend's sentences and their message codes, part 3 of 3 (SIGNALS of
-- frontend/src/utils/errShapes.ts).
use phpo.Base.{List, [], ◌∷◌, Text, lit}

abbrev pub signals_3 : List (Text × Text)
signals_3 =
    (lit "这次没能读到 Docker 的清单，先重新扫描一次再预览", lit "err.previewNoInventory")
    ∷ (lit "这几行里没有可以去删的对象（多半是还没点「详细扫描」，或这一行的占用本来就来自别处）", lit "err.previewNoObjects")
    ∷ (lit "清单里没有「{row}」这一行，这次预览不做（行名对不上等于拿一份没人扫过的单子去删东西）", lit "err.previewUnknownRow")
    ∷ (lit "「{row}」这一行 phpo 没有安全的删法，只给说明不给删除（界面不该给出这颗按钮）", lit "err.previewInfoOnlyRow")
    ∷ (lit "归档缺少数据库快照 db/phpo.db，已中止恢复（未清空容器、未落盘）", lit "err.restoreMissingSnapshot")
    ∷ (lit "转储结果为空", lit "err.dumpEmpty")
    ∷ (lit "打开归档快照失败", lit "err.restoreOpenSnapshot")
    ∷ (lit "非法备份文件名: {name}", lit "err.backupNameIllegal")
    ∷ (lit "{path} 不存在", lit "err.pathMissing")
    ∷ (lit "未知配置文件名: {name}", lit "err.unknownConfigFile")
    ∷ (lit "创建目录失败 {kind}/{version}", lit "err.workdirMkdir")
    ∷ (lit "写入配置失败 {name}", lit "err.workdirWriteConf")
    ∷ (lit "准备挂载目录失败 {path}", lit "err.workdirMountDir")
    ∷ (lit "备份原配置失败 {name}", lit "err.confBackupFail")
    ∷ (lit "创建配置目录失败 {dir}", lit "err.confMkdirFail")
    ∷ (lit "生成 SQLite 快照失败", lit "err.snapshotFailed")
    ∷ (lit "回滚 {name} 失败", lit "err.migrateRollback")
    ∷ (lit "迁移文件名不合规 {name}", lit "err.migrateFileName")
    ∷ (lit "迁移 {name} 缺少 -- down 段", lit "err.migrateNoDown")
    ∷ (lit "迁移 {name} 失败", lit "err.migrateFail")
    ∷ (lit "找不到版本 {v} 的迁移文件", lit "err.migrateMissing")
    ∷ (lit "创建数据目录失败", lit "err.storeMkdir")
    ∷ (lit "打开 SQLite 失败", lit "err.storeOpen")
    ∷ (lit "任务内不得嵌套提交任务", lit "err.nestedTask")
    ∷ (lit "同一操作已在任务队列中", lit "err.duplicateQueued")
    ∷ (lit "下载失败 {url}: HTTP {code}", lit "err.downloadHttpStatus")
    ∷ (lit "渲染 {kind}/{name} 失败: {err}", lit "err.templateRender")
    ∷ (lit "updater: 发布清单返回 {code}", lit "err.updateManifestStatus")
    ∷ (lit "updater: 解析发布清单失败", lit "err.updateManifestParse")
    ∷ (lit "updater: 下载返回 {code}", lit "err.updateDownloadStatus")
    ∷ (lit "清单既无 assets 也无 url", lit "err.manifestNoAssets")
    ∷ (lit "清单内无本机平台（{os}）的安装包", lit "err.manifestNoPlatform")
    ∷ (lit "清单缺 version 字段", lit "err.manifestNoVersion")
    ∷ (lit "未配置清单地址", lit "err.manifestNoURL")
    ∷ (lit "updater: 所有发布源均不可用（{why}）", lit "err.updateSourcesDown")
    ∷ (lit "updater: 未配置任何发布源", lit "err.updateNoSources")
    ∷ (lit "updater: 未配置发布源，升级检查不可用", lit "err.updateCheckUnavailable")
    ∷ (lit "{err}; 回滚: {rb}", lit "err.updateFailedRollback")
    ∷ (lit "updater: 签名校验失败", lit "err.updateSignFail")
    ∷ (lit "updater: 未配置签名公钥", lit "err.updateNoPubkey")
    ∷ (lit "updater: Ed25519 公钥长度错误", lit "err.updatePubkeyLen")
    ∷ (lit "updater: SHA256 校验失败", lit "err.updateShaFail")
    ∷ (lit "nginx reload 失败", lit "err.nginxReloadFailed")
    ∷ (lit "nginx -t 失败", lit "err.nginxTFailed")
    ∷ (lit "落盘 vhost 失败", lit "err.vhostWriteFail")
    ∷ (lit "nginx 配置校验未通过，未写入 {file}", lit "err.vhostRejectWrite")
    ∷ (lit "nginx 配置校验未通过，已回滚 {file}", lit "err.vhostRejectRollback")
    ∷ (lit "读取 hosts 失败", lit "err.hostsReadFail")
    ∷ (lit "osascript 提权写入失败", lit "err.hostsMacFail")
    ∷ (lit "polkit 提权写入失败", lit "err.hostsPolkitFail")
    ∷ (lit "UAC 提权写入失败", lit "err.hostsUacFail")
    ∷ (lit "系统无 pkexec（polkit），无法自动提权", lit "err.hostsNoPkexec")
    ∷ (lit "归档前缀不能为空", lit "err.tarPrefixEmpty")
    ∷ (lit "创建归档目录失败", lit "err.tarMkdir")
    ∷ (lit "创建归档文件失败", lit "err.tarCreate")
    ∷ (lit "打开归档失败", lit "err.tarOpen")
    ∷ (lit "读取 {path} 失败", lit "err.tarReadEntry")
    ∷ (lit "读取 tar 头失败", lit "err.tarReadHeader")
    ∷ (lit "解压 gzip 失败", lit "err.tarGunzip")
    ∷ (lit "拒绝绝对路径条目: {p}", lit "err.tarAbsEntry")
    ∷ (lit "拒绝路径穿越条目: {p}", lit "err.tarTraversalEntry")
    ∷ (lit "收尾 gzip 失败", lit "err.tarGzipClose")
    ∷ (lit "收尾 tar 失败", lit "err.tarClose")
    ∷ (lit "当前用户无权访问容器引擎。（{err}）", lit "err.engineNoPermission")
    ∷ (lit "未检测到容器引擎（Docker 或 Podman）。（{err}）", lit "err.engineNotInstalled")
    ∷ (lit "容器引擎未运行。（{err}）", lit "err.engineNotRunning")
    ∷ (lit "无法连接容器引擎：{err}", lit "err.engineConnect")
    ∷ (lit "容器引擎版本较旧（{ver} < 20.10），部分功能可能不可用。", lit "err.engineOld")
    ∷ (
      lit
          "未检测到容器引擎，请任选其一安装：Docker（sudo apt install docker.io，或按 docs.docker.com 安装 docker-ce）或 Podman（sudo apt install podman，装后执行 systemctl --user enable --now podman.socket）。",
      lit "err.hintInstallLinux",
    )
    ∷ (lit "未检测到容器引擎，请安装 Docker Desktop（{url}）或 Podman（podman.io）。", lit "err.hintInstallDesktop")
    ∷ (
      lit
          "请启动容器引擎：Docker（sudo systemctl start docker）或 Podman（systemctl --user start podman.socket）。",
      lit "err.hintStartLinux",
    )
    ∷ (lit "请启动 Docker Desktop 或 Podman machine（podman machine start）。", lit "err.hintStartDesktop")
    ∷ (
      lit
          "当前用户无权访问容器引擎 socket。Docker：请把用户加入 docker 组（sudo usermod -aG docker $USER 后重新登录）；Podman：请启用用户级 socket（systemctl --user enable --now podman.socket）。",
      lit "err.hintPermLinux",
    )
    ∷ (
      lit "当前用户无权访问容器引擎。请重新启动 Docker Desktop / Podman machine；仍不行时以管理员身份运行本应用。",
      lit "err.hintPermDesktop",
    )
    ∷ (
      lit
          "请确认容器引擎已就绪（Docker：sudo systemctl start docker；Podman：systemctl --user start podman.socket）且端点可达后重试。",
      lit "err.hintConnectLinux",
    )
    ∷ (lit "请确认 Docker Desktop 或 Podman machine 已启动后重试。", lit "err.hintConnectDesktop")
    ∷ (lit "是否继续？", lit "err.hintAskContinue")
    ∷ []
